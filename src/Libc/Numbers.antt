-- ===== src/Libc/Numbers.antt =====
-- src/libc/stdlib.cpp: texts to numbers. A text is the list of its bytes before the NUL; reading
-- its end gives 0, which none of the tests accepts.
use Prim.Native.Nat.{bit_or}
use weng_shi_os.Base.{
  ℕ, ◌+◌, ◌-◌, ◌*◌, ◌%◌, ◌^◌, Bool, true, false, ◌==◌, ◌||◌, ◌&&◌, ltb, leb, List, [], ◌∷◌, Option,
  none, some, if◌then◌else◌,
}
use weng_shi_os.Base.Int.{ℤ, pos, sub_ℕ}

unfoldable pub is_space : ℕ → Bool
is_space c = (c == 32) || (c == 9) || (c == 10) || (c == 13) || (c == 11) || (c == 12)

-- The loops over blanks.
unfoldable pub skip_spaces : List ℕ → List ℕ
skip_spaces [] = []
skip_spaces (c ∷ s) = let rest = skip_spaces s in if is_space c then rest else c ∷ s

unfoldable pub is_digit : ℕ → Bool
is_digit c = leb 48 c && leb c 57

-- The loop over digits; `none` where the signed result overflows, which C++ leaves undefined.
unfoldable pub parse_digits : ℕ → ℕ → List ℕ → Option ℕ
parse_digits largest result [] = some result
parse_digits largest result (c ∷ s) =
    let next = result * 10 + (c - 48) in
    let rest = parse_digits largest next s in
    if is_digit c then (if leb next largest then rest else none) else some result

unfoldable pub after_sign : List ℕ → Bool × List ℕ
after_sign [] = (false, [])
after_sign (c ∷ s) = if c == 43 then (false, s) else if c == 45 then (true, s) else (false, c ∷ s)

unfoldable pub signed : Bool → Option ℕ → Option ℤ
signed negative none = none
signed true (some n) = some (sub_ℕ 0 n)
signed false (some n) = some (pos n)

-- The body that the three functions share, at the largest value of their type.
unfoldable pub ato : ℕ → List ℕ → Option ℤ
ato largest s =
    let (negative, digits) = after_sign (skip_spaces s) in
    signed negative (parse_digits largest 0 digits)

abbrev pub atoi : List ℕ → Option ℤ
atoi s = ato (2 ^ 31 - 1) s

abbrev pub atol : List ℕ → Option ℤ
atol s = ato (2 ^ 63 - 1) s

abbrev pub atoll : List ℕ → Option ℤ
atoll s = ato (2 ^ 63 - 1) s

-- `none` for the answer -1.
unfoldable pub hex_digit : ℕ → Option ℕ
hex_digit c =
    if leb 48 c && leb c 57
    then some (c - 48)
    else if leb 97 c && leb c 102
    then some (10 + (c - 97))
    else if leb 65 c && leb c 70
    then some (10 + (c - 65))
    else none

unfoldable pub hex_loop : ℕ → List ℕ → Option ℕ
hex_loop acc [] = some acc
hex_loop acc (c ∷ s) = elim (hex_digit c) [
  | none ↦ some acc
  | some d ↦
      let rest = hex_loop (bit_or (acc * 2 ^ 4 % 2 ^ 64) d) s in
      if ltb (2 ^ 60 - 1) acc then none else rest
]

unfoldable pub skip_prefix : List ℕ → List ℕ
skip_prefix [] = []
skip_prefix (c ∷ []) = c ∷ []
skip_prefix (c ∷ x ∷ s) = if (c == 48) && ((x == 120) || (x == 88)) then s else c ∷ x ∷ s

unfoldable pub starts_hex : List ℕ → Bool
starts_hex [] = false
starts_hex (c ∷ s) = elim (hex_digit c) [ none ↦ false | some d ↦ true ]

-- A null `s` is `none`, and `out` says whether there is somewhere to write to. The answer is what
-- is written on success, and `none` for -1.
unfoldable pub hex_to_u64 : Option (List ℕ) → Bool → Option ℕ
hex_to_u64 none out = none
hex_to_u64 (some s) false = none
hex_to_u64 (some s) true =
    let digits = skip_prefix (skip_spaces s) in
    if starts_hex digits then hex_loop 0 digits else none
