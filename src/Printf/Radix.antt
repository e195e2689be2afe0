-- ===== src/Printf/Radix.antt =====
-- `%b` and `%o` of src/libc/printf.cpp.
use native.Mathlib.Nat.{pow-suc}
use weng_shi_os.Base.{
  ℕ, zero, suc, ◌+◌, ◌-◌, ◌*◌, ◌/◌, ◌%◌, ◌^◌, ◌<◌, ◌≤◌, ◌≡◌, refl, List, [], ◌∷◌, length, some,
  arith, ◌∙◌, ap,
}
use weng_shi_os.Terminal.{Terminal, write}
use weng_shi_os.Printf.{push_radix, print_radix}

-- The number that a text of digits stands for, read from the left.
unfoldable pub read_radix : ℕ → ℕ → List ℕ → ℕ
read_radix radix acc [] = acc
read_radix radix acc (c ∷ s) = read_radix radix (acc * radix + (c - 48)) s

-- Characters that are digits of the base, which is at most ten.
abbrev pub AreDigits : ℕ → List ℕ → Type 0
AreDigits radix [] = Unit {0}
AreDigits radix (c ∷ s) = (48 ≤ c) × (c < 48 + radix) × AreDigits radix s

-- The digits of a number that has no more than the room fit, and read back as the number in front
-- of the rest of the stack.
pub binary_pushed :
    (room v : ℕ) (stack : List ℕ)
    → v < 2 ^ room
    → AreDigits 2 stack
    → (ds : List ℕ) × (push_radix 2 room v stack ≡ some ds)
      × (length ds ≤ room + length stack)
      × (read_radix 2 0 ds ≡ read_radix 2 v stack)
      × AreDigits 2 ds
unfolding push_radix
binary_pushed room zero stack h d = (stack, refl, omega arith, refl, d)
binary_pushed zero (suc v) stack h d = absurd (omega (arith, h))
binary_pushed (suc room) (suc v) stack h d =
    let (ds, e, short, read, digits) =
      binary_pushed room (suc v / 2) ((48 + suc v % 2) ∷ stack) (omega (arith, h, pow-suc 2 room))
        (omega arith, omega arith, d) in
    (
      ds,
      e,
      omega (arith, short),
      read ∙ (unfold read_radix in ap (λ (n : ℕ). read_radix 2 n stack) (omega arith)),
      digits,
    )

pub octal_pushed :
    (room v : ℕ) (stack : List ℕ)
    → v < 8 ^ room
    → AreDigits 8 stack
    → (ds : List ℕ) × (push_radix 8 room v stack ≡ some ds)
      × (length ds ≤ room + length stack)
      × (read_radix 8 0 ds ≡ read_radix 8 v stack)
      × AreDigits 8 ds
unfolding push_radix
octal_pushed room zero stack h d = (stack, refl, omega arith, refl, d)
octal_pushed zero (suc v) stack h d = absurd (omega (arith, h))
octal_pushed (suc room) (suc v) stack h d =
    let (ds, e, short, read, digits) =
      octal_pushed room (suc v / 8) ((48 + suc v % 8) ∷ stack) (omega (arith, h, pow-suc 8 room))
        (omega arith, omega arith, d) in
    (
      ds,
      e,
      omega (arith, short),
      read ∙ (unfold read_radix in ap (λ (n : ℕ). read_radix 8 n stack) (omega arith)),
      digits,
    )

print_zero : (radix room : ℕ) (t : Terminal) → print_radix radix room t 0 ≡ some (write t (48 ∷ []))
unfolding print_radix
print_zero radix room t = refl

print_digits :
    (radix room v : ℕ) (t : Terminal) (ds : List ℕ)
    → push_radix radix room (suc v) [] ≡ some ds
    → print_radix radix room t (suc v) ≡ some (write t ds)
unfolding print_radix
print_digits radix room v t ds e = ground (arith, e)

-- `%b` of a 64-bit number stays inside its buffer and prints at most 64 characters, each 0 or 1,
-- that read in base 2 as the number; `%o` prints at most 22, each 0 to 7, that read in base 8 as it.
pub print_radix-read_radix :
    (t : Terminal) (v : ℕ)
    → v < 2 ^ 64
    → ((ds : List ℕ) × (print_radix 2 64 t v ≡ some (write t ds))
        × (length ds ≤ 64)
        × (read_radix 2 0 ds ≡ v)
        × AreDigits 2 ds)
      × ((ds : List ℕ) × (print_radix 8 22 t v ≡ some (write t ds))
          × (length ds ≤ 22)
          × (read_radix 8 0 ds ≡ v)
          × AreDigits 8 ds)
unfolding read_radix
print_radix-read_radix t zero h = (
  (48 ∷ [], print_zero 2 64 t, omega arith, refl, (omega arith, omega arith, tt)),
  (48 ∷ [], print_zero 8 22 t, omega arith, refl, (omega arith, omega arith, tt)),
)
print_radix-read_radix t (suc v) h =
    let (ds, e, l, r, d) = binary_pushed 64 (suc v) [] (omega (arith, h)) tt in
    let (ds', e', l', r', d') = octal_pushed 22 (suc v) [] (omega (arith, h)) tt in
    (
      (ds, print_digits 2 64 v t ds e, omega (arith, l), r, d),
      (ds', print_digits 8 22 v t ds' e', omega (arith, l'), r', d'),
    )
