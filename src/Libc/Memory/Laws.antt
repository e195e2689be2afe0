-- ===== src/Libc/Memory/Laws.antt =====
-- What the block operations of src/libc/string.cpp leave in memory.
use weng_shi_os.Base.{
  ℕ, zero, suc, ◌+◌, ◌-◌, ◌%◌, ◌^◌, ◌≤◌, ◌<◌, ◌≡◌, ◌↔◌, refl, ◌&&◌, ltb, leb, if◌then◌else◌, arith,
  inl, ◌⊎◌, dec_lt,
}
use weng_shi_os.Base.Int.{pos}
use weng_shi_os.Base.Mem.{Mem, poke}
use weng_shi_os.Libc.Memory.{copy_up, copy_down, memcpy, memmove, set_up, memset, memcmp}

-- Going up is right if no byte is written before it is read.
copy_up_lem :
    (n i d s : ℕ) (m : Mem)
    → (d ≤ s) ⊎ (s + i + n ≤ d + i)
    → (q : ℕ)
    → copy_up n i d s m q ≡ (if leb (d + i) q && ltb q (d + i + n) then m (s + (q - d)) else m q)
unfolding copy_up
copy_up_lem zero i d s m h q = ground arith
copy_up_lem (suc n) i d s m h q =
    ground (arith, copy_up_lem n (i + 1) d s (poke m (d + i) (m (s + i))) (omega arith) q)

copy_down_lem :
    (n d s : ℕ) (m : Mem)
    → s ≤ d
    → (q : ℕ) → copy_down n d s m q ≡ (if leb d q && ltb q (d + n) then m (s + (q - d)) else m q)
unfolding copy_down
copy_down_lem zero d s m h q = ground arith
copy_down_lem (suc n) d s m h q =
    ground (arith, copy_down_lem n d s (poke m (d + n) (m (s + n))) h q)

-- `memmove` puts at the destination what stood at the source before, also where the two overlap,
-- and changes no other byte.
pub memmove_lem :
    (m : Mem) (dest src count q : ℕ)
    → memmove m dest src count q
      ≡ (if leb dest q && ltb q (dest + count) then m (src + (q - dest)) else m q)
unfolding memmove
memmove_lem m dest src count q = elim (dec_lt dest src) [
  | yes lt ↦ ground (arith, copy_up_lem count 0 dest src m (inl (omega arith)) q)
  | no ge ↦ ground (arith, copy_down_lem count dest src m (omega arith) q)
]

-- `memcpy` agrees with `memmove` at every byte unless the destination begins inside the source.
pub memcpy-eq-memmove :
    (m : Mem) (dest src count : ℕ)
    → (dest ≤ src) ⊎ (src + count ≤ dest)
    → (q : ℕ) → memcpy m dest src count q ≡ memmove m dest src count q
unfolding memcpy
memcpy-eq-memmove m dest src count h q =
    ground (arith, copy_up_lem count 0 dest src m (omega arith) q, memmove_lem m dest src count q)

set_up_lem :
    (n i d v : ℕ) (m : Mem) (q : ℕ)
    → set_up n i d v m q ≡ (if leb (d + i) q && ltb q (d + i + n) then v else m q)
unfolding set_up
set_up_lem zero i d v m q = ground arith
set_up_lem (suc n) i d v m q = ground (arith, set_up_lem n (i + 1) d v (poke m (d + i) v) q)

-- `memset` fills the range with the low byte of its value and changes no other byte.
pub memset_lem :
    (m : Mem) (dest value count q : ℕ)
    → memset m dest value count q
      ≡ (if leb dest q && ltb q (dest + count) then value % 256 else m q)
unfolding memset
memset_lem m dest value count q = ground (arith, set_up_lem count 0 dest (value % 2 ^ 8) m q)

memcmp_split :
    (m : Mem) (a b n : ℕ)
    → memcmp m a b (suc n) ≡ pos 0
    → (m a ≡ m b) × (memcmp m (a + 1) (b + 1) n ≡ pos 0)
unfolding memcmp
memcmp_split m a b n h = ground arith

equal_bytes :
    (m : Mem) (a b count : ℕ)
    → memcmp m a b count ≡ pos 0
    → (i : ℕ) → i < count
    → m (a + i) ≡ m (b + i)
equal_bytes m a b zero h i l = absurd (omega arith)
equal_bytes m a b (suc n) h zero l = ground (arith, memcmp_split m a b n h)
equal_bytes m a b (suc n) h (suc i) l =
    ground (arith, equal_bytes m (a + 1) (b + 1) n (memcmp_split m a b n h).1 i)

zero_of_equal :
    (m : Mem) (a b count : ℕ)
    → ((i : ℕ) → i < count → m (a + i) ≡ m (b + i))
    → memcmp m a b count ≡ pos 0
unfolding memcmp
zero_of_equal m a b zero h = refl
zero_of_equal m a b (suc n) h =
    ground (arith, h 0, zero_of_equal m (a + 1) (b + 1) n (λ i l. ground (arith, h (suc i))))

-- `memcmp` answers 0 exactly for equal ranges.
pub memcmp-zero :
    (m : Mem) (a b count : ℕ)
    → (memcmp m a b count ≡ pos 0) ↔ ((i : ℕ) → i < count → m (a + i) ≡ m (b + i))
memcmp-zero m a b count = (equal_bytes m a b count, zero_of_equal m a b count)
