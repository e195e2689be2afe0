-- ===== src/Libc/Memory.antt =====
-- memcpy, memmove, memset and memcmp of src/libc/string.cpp, over byte-addressed memory.
pub mod Laws
use weng_shi_os.Base.{
  ℕ, zero, suc, ◌+◌, ◌%◌, ◌^◌, Bool, true, false, ◌||◌, ◌==◌, ltb, if◌then◌else◌,
}
use weng_shi_os.Base.Int.{ℤ, pos, sub_ℕ}
use weng_shi_os.Base.Mem.{Mem, poke}

-- `for (i = 0; i < count; ++i) d[i] = s[i]`, with the rounds left and `i`.
copy_up : ℕ → ℕ → ℕ → ℕ → Mem → Mem
copy_up zero i d s m = m
copy_up (suc n) i d s m = copy_up n (i + 1) d s (poke m (d + i) (m (s + i)))

-- `for (i = count; i > 0; --i) d[i - 1] = s[i - 1]`
copy_down : ℕ → ℕ → ℕ → Mem → Mem
copy_down zero d s m = m
copy_down (suc i) d s m = copy_down i d s (poke m (d + i) (m (s + i)))

unfoldable pub memcpy : Mem → ℕ → ℕ → ℕ → Mem
unfolding copy_up
memcpy m dest src count = copy_up count 0 dest src m

unfoldable pub memmove : Mem → ℕ → ℕ → ℕ → Mem
unfolding copy_up copy_down
memmove m dest src count =
    if dest == src || count == 0
    then m
    else if ltb dest src
    then copy_up count 0 dest src m
    else copy_down count dest src m

set_up : ℕ → ℕ → ℕ → ℕ → Mem → Mem
set_up zero i d v m = m
set_up (suc n) i d v m = set_up n (i + 1) d v (poke m (d + i) v)

-- `value` is the bit pattern of the int; the byte is its low part.
unfoldable pub memset : Mem → ℕ → ℕ → ℕ → Mem
unfolding set_up
memset m dest value count = set_up count 0 dest (value % 2 ^ 8) m

-- The rounds left, and the two current addresses.
unfoldable pub memcmp : Mem → ℕ → ℕ → ℕ → ℤ
memcmp m a b zero = pos 0
memcmp m a b (suc n) = elim (m a == m b) [
  | true ↦ memcmp m (a + 1) (b + 1) n
  | false ↦ sub_ℕ (m a) (m b)
]
