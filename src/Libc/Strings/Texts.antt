-- ===== src/Libc/Strings/Texts.antt =====
-- The texts that strncpy, strcat and strchr of src/libc/string.cpp leave or find.
use weng_shi_os.Base.{
  ℕ, zero, suc, ◌+◌, ◌-◌, ◌%◌, ◌<◌, ◌≡◌, ◌≢◌, refl, ◌==◌, ltb, leb, List, [], ◌∷◌, ◌++◌, length,
  take, Option, none, some, if◌then◌else◌, arith, ◌&&◌, ap, subst, min,
}
use weng_shi_os.Base.Mem.{Mem, poke, IsText, Apart}
use weng_shi_os.Libc.Strings.{strncpy, text_end, strcat, strchr}
use weng_shi_os.Libc.Strings.Write.{strcpy_lem, strncpy_lem}

-- Bytes copied from a text and closed by a NUL are a prefix of it.
IsText-of_copy :
    (s : List ℕ) (n : ℕ) (m m' : Mem) (dest src : ℕ)
    → IsText m src s
    → ((i : ℕ) → i < min n (length s) → m' (dest + i) ≡ m (src + i))
    → m' (dest + min n (length s)) ≡ 0
    → IsText m' dest (take n s)
IsText-of_copy s zero m m' dest src t h z = ground (arith, z)
IsText-of_copy [] (suc n) m m' dest src t h z = ground (arith, z)
IsText-of_copy (c ∷ s) (suc n) m m' dest src t h z = (
  ground (arith, h 0),
  t.1,
  IsText-of_copy s n m m' (dest + 1) (src + 1) t.2 (λ i l. ground (arith, h (suc i)))
      (ground (arith, z)),
)

-- `strncpy(dst, src, n)` and then `dst[n] = '\0'`, as the kernel fills its name fields: the field
-- holds the text, cut to `n` bytes.
pub strncpy_terminated :
    (s : List ℕ) (m : Mem) (dest src n : ℕ)
    → IsText m src s
    → Apart dest (n + 1) src (length s + 1)
    → IsText (poke (strncpy m dest src n) (dest + n) 0) dest (take n s)
strncpy_terminated s m dest src n t h =
    IsText-of_copy s n m (poke (strncpy m dest src n) (dest + n) 0) dest src t
      (λ i l. ground (arith, strncpy_lem s m dest src n t (omega arith) (dest + i)))
      (ground (arith, strncpy_lem s m dest src n t (omega arith) (dest + min n (length s))))

text_end_lem :
    (s : List ℕ) (f : ℕ) (m : Mem) (p : ℕ)
    → IsText m p s
    → length s < f
    → text_end f m p ≡ some (p + length s)
unfolding text_end
text_end_lem s zero m p t h = absurd (omega arith)
text_end_lem [] (suc f) m p t h = ground arith
text_end_lem (c ∷ s) (suc f) m p t h = ground (arith, text_end_lem s f m (p + 1) t.2)

IsText-append :
    (t s : List ℕ) (m m' : Mem) (p : ℕ)
    → IsText m p t
    → ((i : ℕ) → i < length t → m' (p + i) ≡ m (p + i))
    → IsText m' (p + length t) s
    → IsText m' p (t ++ s)
IsText-append [] s m m' p h same u = subst (λ (a : ℕ). IsText m' a s) (omega arith) u
IsText-append (c ∷ t) s m m' p h same u = (
  ground (arith, same 0),
  h.1,
  IsText-append t s m m' (p + 1) h.2 (λ i l. ground (arith, same (suc i)))
      (subst (λ (a : ℕ). IsText m' a s) (omega arith) u),
)

take-length : (s : List ℕ) → take (length s) s ≡ s
take-length [] = refl
take-length (c ∷ s) = ap (λ r. c ∷ r) (take-length s)

IsText-end : (s : List ℕ) (m : Mem) (p : ℕ) → IsText m p s → m (p + length s) ≡ 0
IsText-end [] m p t = ground (arith, t)
IsText-end (c ∷ s) m p t = ground (arith, IsText-end s m (p + 1) t.2)

copied_tail :
    (s : List ℕ) (m m' : Mem) (dest src : ℕ)
    → IsText m src s
    → ((q : ℕ)
        → m' q ≡ (if leb dest q && ltb q (dest + length s + 1) then m (src + (q - dest)) else m q))
    → IsText m' dest s
copied_tail s m m' dest src t law =
    subst (λ r. IsText m' dest r) (take-length s)
      (IsText-of_copy s (length s) m m' dest src t (λ i l. ground (arith, law (dest + i)))
        (ground (arith, law (dest + min (length s) (length s)), IsText-end s m src t)))

-- With enough fuel and room, `strcat` leaves the first text with the second behind it.
pub strcat_lem :
    (t s : List ℕ) (fuel : ℕ) (m : Mem) (dest src : ℕ)
    → IsText m dest t
    → IsText m src s
    → length t < fuel
    → length s < fuel
    → Apart dest (length t + length s + 1) src (length s + 1)
    → (m' : Mem) × (strcat fuel m dest src ≡ some m') × IsText m' dest (t ++ s)
unfolding strcat
strcat_lem t s fuel m dest src ht hs ft fs apart =
    let (m', e, law) = strcpy_lem s fuel m (dest + length t) src hs fs (omega arith) in
    (
      m',
      ground (arith, text_end_lem t fuel m dest ht ft, e),
      IsText-append t s m m' dest ht (λ i l. ground (arith, law (dest + i)))
          (copied_tail s m m' (dest + length t) src hs law),
    )

-- The first place of a byte in a text.
abbrev pub index_of : ℕ → List ℕ → Option ℕ
index_of c [] = none
index_of c (d ∷ s) =
    if d == c then some 0 else elim (index_of c s) [ none ↦ none | some i ↦ some (suc i) ]

-- `strchr` for a byte other than NUL returns the address of its first occurrence, and a null
-- pointer exactly when there is none.
pub strchr_lem :
    (s : List ℕ) (fuel : ℕ) (m : Mem) (p ch : ℕ)
    → IsText m p s
    → length s < fuel
    → ch % 256 ≢ 0
    → strchr fuel m p ch
      ≡ some (elim (index_of (ch % 256) s) [ none ↦ none | some i ↦ some (p + i) ])
unfolding strchr
strchr_lem s zero m p ch t h ne = absurd (omega arith)
strchr_lem [] (suc f) m p ch t h ne = ground arith
strchr_lem (c ∷ s) (suc f) m p ch t h ne = ground (arith, strchr_lem s f m (p + 1) ch t.2)
