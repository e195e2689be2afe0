-- ===== src/Libc/Strings.antt =====
-- strlen, strcmp, strncmp, strcpy, strncpy, strcat and strchr of src/libc/string.cpp.
-- A loop that only a NUL ends takes fuel, and `none` means that the fuel ran out.
pub mod Scan
pub mod Write
pub mod Texts
use weng_shi_os.Base.{
  ℕ, zero, suc, ◌+◌, ◌%◌, ◌^◌, Bool, true, false, ◌||◌, ◌&&◌, not, ◌==◌, Option, none, some,
  if◌then◌else◌,
}
use weng_shi_os.Base.Int.{ℤ, pos, sub_ℕ}
use weng_shi_os.Base.Mem.{Mem, poke}

-- `while (str[len] != '\0') ++len;`
strlen_loop : ℕ → Mem → ℕ → ℕ → Option ℕ
strlen_loop zero m str len = none
strlen_loop (suc f) m str len = elim (m (str + len) == 0) [
  | true ↦ some len
  | false ↦ strlen_loop f m str (len + 1)
]

unfoldable pub strlen : ℕ → Mem → ℕ → Option ℕ
unfolding strlen_loop
strlen fuel m str = strlen_loop fuel m str 0

unfoldable pub strcmp : ℕ → Mem → ℕ → ℕ → Option ℤ
strcmp zero m a b = none
strcmp (suc f) m a b = elim (not (m a == 0) && m a == m b) [
  | true ↦ strcmp f m (a + 1) (b + 1)
  | false ↦ some (sub_ℕ (m a) (m b))
]

-- The rounds left, then the two current addresses.
unfoldable pub strncmp : ℕ → Mem → ℕ → ℕ → ℤ
strncmp zero m a b = pos 0
strncmp (suc n) m a b = elim (not (m a == m b) || m a == 0) [
  | true ↦ sub_ℕ (m a) (m b)
  | false ↦ strncmp n m (a + 1) (b + 1)
]

-- `while ((*dest++ = *src++) != '\0') {}`
unfoldable pub strcpy : ℕ → Mem → ℕ → ℕ → Option Mem
strcpy zero m dest src = none
strcpy (suc f) m dest src = elim (m src == 0) [
  | true ↦ some (poke m dest (m src))
  | false ↦ strcpy f (poke m dest (m src)) (dest + 1) (src + 1)
]

-- The second loop of `strncpy`, then the first, with the rounds left and `i`.
pad_zero : ℕ → ℕ → ℕ → Mem → Mem
pad_zero zero i dest m = m
pad_zero (suc n) i dest m = pad_zero n (i + 1) dest (poke m (dest + i) 0)

strncpy_loop : ℕ → ℕ → ℕ → ℕ → Mem → Mem
strncpy_loop zero i dest src m = m
strncpy_loop (suc n) i dest src m = elim (m (src + i) == 0) [
  | true ↦ pad_zero (suc n) i dest m
  | false ↦ strncpy_loop n (i + 1) dest src (poke m (dest + i) (m (src + i)))
]

unfoldable pub strncpy : Mem → ℕ → ℕ → ℕ → Mem
unfolding strncpy_loop pad_zero
strncpy m dest src count = strncpy_loop count 0 dest src m

-- `while (*dest) ++dest;`, with its own fuel, and then the loop of `strcpy`.
text_end : ℕ → Mem → ℕ → Option ℕ
text_end zero m p = none
text_end (suc f) m p = elim (m p == 0) [ true ↦ some p | false ↦ text_end f m (p + 1) ]

unfoldable pub strcat : ℕ → Mem → ℕ → ℕ → Option Mem
unfolding text_end strcpy
strcat fuel m dest src = elim (text_end fuel m dest) [ none ↦ none | some p ↦ strcpy fuel m p src ]

-- `ch` is the bit pattern of the int. The result is the address, or none for a null pointer.
unfoldable pub strchr : ℕ → Mem → ℕ → ℕ → Option (Option ℕ)
strchr zero m str ch = none
strchr (suc f) m str ch = elim (m str == 0) [
  | true ↦ some (if ch == 0 then some str else none)
  | false ↦ elim (m str == ch % 2 ^ 8) [ true ↦ some (some str) | false ↦ strchr f m (str + 1) ch ]
]
