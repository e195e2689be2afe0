-- ===== src/Libc/Strings/Write.antt =====
-- The copying functions of src/libc/string.cpp on texts.
use weng_shi_os.Base.{
  ℕ, zero, suc, ◌+◌, ◌-◌, ◌<◌, ◌≡◌, ltb, leb, List, [], ◌∷◌, length, some, if◌then◌else◌, arith,
  ◌&&◌, ap, subst, ◌⊎◌,
}
use weng_shi_os.Base.Mem.{Mem, poke, IsText, Apart}
use weng_shi_os.Libc.Strings.{strcpy, pad_zero, strncpy_loop, strncpy}

-- A write outside a text leaves it.
pub IsText-poke :
    (s : List ℕ) (m : Mem) (p a v : ℕ)
    → (a < p) ⊎ (p + length s < a)
    → IsText m p s
    → IsText (poke m a v) p s
IsText-poke [] m p a v h t = ground arith
IsText-poke (c ∷ s) m p a v h t = (ground arith, t.1, IsText-poke s m (p + 1) a v (omega arith) t.2)

-- With fuel above the length, and source and destination apart, `strcpy` copies the text with its
-- NUL and changes nothing else.
pub strcpy_lem :
    (s : List ℕ) (fuel : ℕ) (m : Mem) (dest src : ℕ)
    → IsText m src s
    → length s < fuel
    → Apart dest (length s + 1) src (length s + 1)
    → (m' : Mem) × (strcpy fuel m dest src ≡ some m')
      × ((q : ℕ)
          → m' q
            ≡ (if leb dest q && ltb q (dest + length s + 1) then m (src + (q - dest)) else m q))
unfolding strcpy
strcpy_lem s zero m dest src t h ap = absurd (omega arith)
strcpy_lem [] (suc f) m dest src t h ap = (poke m dest (m src), ground arith, λ q. ground arith)
strcpy_lem (c ∷ s) (suc f) m dest src t h ap =
    let m1 : Mem = poke m dest (m src) in
    let (m', e, law) =
      strcpy_lem s f m1 (dest + 1) (src + 1)
        (IsText-poke s m (src + 1) dest (m src) (omega arith) t.2) (omega arith) (omega arith) in
    (m', ground (arith, e), λ q. ground (arith, law q))

pad_zero_lem :
    (n i dest : ℕ) (m : Mem) (q : ℕ)
    → pad_zero n i dest m q ≡ (if leb (dest + i) q && ltb q (dest + i + n) then 0 else m q)
unfolding pad_zero
pad_zero_lem zero i dest m q = ground arith
pad_zero_lem (suc n) i dest m q =
    ground (arith, pad_zero_lem n (i + 1) dest (poke m (dest + i) 0) q)

strncpy_loop_lem :
    (s : List ℕ) (n i dest src : ℕ) (m : Mem)
    → IsText m (src + i) s
    → Apart dest (i + n) src (i + length s + 1)
    → (q : ℕ)
    → strncpy_loop n i dest src m q ≡ (
        if leb (dest + i) q && ltb q (dest + i + n)
        then (if ltb q (dest + i + length s) then m (src + (q - dest)) else 0)
        else m q)
unfolding strncpy_loop
strncpy_loop_lem s zero i dest src m t h q = ground arith
strncpy_loop_lem [] (suc n) i dest src m t h q = ground (arith, pad_zero_lem (suc n) i dest m q)
strncpy_loop_lem (c ∷ s) (suc n) i dest src m t h q =
    ground (arith, strncpy_loop_lem s n (i + 1) dest src m1 text1 (omega arith) q)
  where
    m1 : Mem
    m1 = poke m (dest + i) (m (src + i))

    moved : IsText m (src + (i + 1)) s
    moved = subst (λ (a : ℕ). IsText m a s) (omega arith) t.2

    text1 : IsText m1 (src + (i + 1)) s
    text1 = IsText-poke s m (src + (i + 1)) (dest + i) (m (src + i)) (omega arith) moved

-- With source and destination apart, `strncpy` writes exactly `count` bytes: the text as far as it
-- goes, then zeros.
pub strncpy_lem :
    (s : List ℕ) (m : Mem) (dest src count : ℕ)
    → IsText m src s
    → Apart dest count src (length s + 1)
    → (q : ℕ)
    → strncpy m dest src count q ≡ (
        if leb dest q && ltb q (dest + count)
        then (if ltb q (dest + length s) then m (src + (q - dest)) else 0)
        else m q)
unfolding strncpy
strncpy_lem s m dest src count t h q =
    ground (arith, strncpy_loop_lem s count 0 dest src m moved (omega arith) q)
  where
    moved : IsText m (src + 0) s
    moved = subst (λ (a : ℕ). IsText m a s) (omega arith) t
