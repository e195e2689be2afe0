-- ===== src/Terminal/Digits.antt =====
-- What `writeDec` and `writeHex` of src/drivers/vga/terminal.cpp print, read back by
-- src/libc/stdlib.cpp.
use Prim.Native.Nat.{bit_or}
use native.Mathlib.Nat.{pow-suc, div-div-eq-div-mul, div-le_self}
use weng_shi_os.Base.{
  ℕ, zero, suc, ◌+◌, ◌-◌, ◌*◌, ◌/◌, ◌%◌, ◌^◌, ◌<◌, ◌≤◌, ◌≡◌, refl, Bool, true, false, ◌==◌, ◌&&◌,
  ◌||◌, not, List, [], ◌∷◌, length, get_or, some, arith, Bool-cases, inl, inr, ◌∙◌, sym, ap, subst,
}
use weng_shi_os.Base.Int.{pos}
use weng_shi_os.Base.Bits.{bit_or-high}
use weng_shi_os.Libc.Numbers.{
  is_space, skip_spaces, is_digit, parse_digits, after_sign, signed, ato, atoll, hex_digit,
  hex_loop, skip_prefix, starts_hex, hex_to_u64,
}
use weng_shi_os.Terminal.{Terminal, hex_digits, hex_text, push_digits, write, write_dec, write_hex}

parse_digit :
    (largest acc d : ℕ) (s : List ℕ)
    → d < 10
    → acc * 10 + d ≤ largest
    → parse_digits largest acc ((48 + d) ∷ s) ≡ parse_digits largest (acc * 10 + d) s
unfolding parse_digits is_digit
parse_digit largest acc d s h k = ground arith

-- A text that starts with a decimal digit.
abbrev StartsWithDigit : List ℕ → Type 0
StartsWithDigit s = (d : ℕ) × (d < 10) × (r : List ℕ) × (s ≡ (48 + d) ∷ r)

-- The digits of `v` on top of a stack: they fit, they start with a digit, and they parse as `v`
-- before the rest of the stack.
pushed :
    (room v : ℕ) (stack : List ℕ)
    → v < 10 ^ room
    → (ds : List ℕ) × (push_digits room v stack ≡ some ds)
      × (length ds ≤ room + length stack)
      × ((largest : ℕ) → v ≤ largest → parse_digits largest 0 ds ≡ parse_digits largest v stack)
unfolding push_digits
pushed room zero stack h = (stack, ground arith, omega arith, λ largest k. refl)
pushed zero (suc v) stack h = absurd (omega (arith, h))
pushed (suc room) (suc v) stack h =
    let (ds, e, short, read) =
      pushed room (suc v / 10) ((48 + suc v % 10) ∷ stack) (omega (arith, h, pow-suc 10 room)) in
    (
      ds,
      e,
      omega (arith, short),
      λ largest k.
          read largest (omega (arith, k))
          ∙ parse_digit largest (suc v / 10) (suc v % 10) stack (omega arith) (omega (arith, k))
          ∙ ap (λ (n : ℕ). parse_digits largest n stack) (omega arith),
    )

starts :
    (room v : ℕ) (stack ds : List ℕ)
    → push_digits room v stack ≡ some ds
    → StartsWithDigit stack
    → StartsWithDigit ds
unfolding push_digits
starts room zero stack ds e d = subst StartsWithDigit (ground (arith, e)) d
starts zero (suc v) stack ds e d = absurd (ground (arith, e))
starts (suc room) (suc v) stack ds e d =
    starts room (suc v / 10) ((48 + suc v % 10) ∷ stack) ds e (suc v % 10, omega arith, stack, refl)

ato_digits :
    (largest : ℕ) (s : List ℕ)
    → StartsWithDigit s
    → ato largest s ≡ signed false (parse_digits largest 0 s)
unfolding ato skip_spaces after_sign is_space
ato_digits largest s (d, h, r, e) = rw e (ground (arith, h))

write_dec_zero : (t : Terminal) → write_dec t 0 ≡ some (write t (48 ∷ []))
unfolding write_dec write
write_dec_zero t = refl

write_dec_digits :
    (t : Terminal) (v : ℕ) (ds : List ℕ)
    → push_digits 20 (suc v) [] ≡ some ds
    → write_dec t (suc v) ≡ some (write t ds)
unfolding write_dec
write_dec_digits t v ds e = ground (arith, e)

atoll_zero : atoll (48 ∷ []) ≡ some (pos 0)
unfolding ato skip_spaces after_sign is_space parse_digits is_digit signed
atoll_zero = refl

push_digits-suc :
    (room v : ℕ) (stack : List ℕ)
    → push_digits (suc room) (suc v) stack
      ≡ push_digits room (suc v / 10) ((48 + suc v % 10) ∷ stack)
unfolding push_digits
push_digits-suc room v stack = refl

starts_pushed :
    (room v : ℕ) (ds : List ℕ) → push_digits (suc room) (suc v) [] ≡ some ds → StartsWithDigit ds
starts_pushed room v ds e =
    starts room (suc v / 10) ((48 + suc v % 10) ∷ []) ds (sym (push_digits-suc room v []) ∙ e)
      (suc v % 10, omega arith, [], refl)

parsed : (largest n : ℕ) → signed false (parse_digits largest n []) ≡ some (pos n)
unfolding signed parse_digits
parsed largest n = refl

-- `writeDec` of a 64-bit number stays inside its array of twenty digits and prints them, and
-- `atoll` reads the number back from what was printed, if it is in the range of its type.
pub write_dec-atoll :
    (t : Terminal) (v : ℕ)
    → v < 2 ^ 64
    → (ds : List ℕ) × (write_dec t v ≡ some (write t ds))
      × (length ds ≤ 20)
      × (v < 2 ^ 63 → atoll ds ≡ some (pos v))
write_dec-atoll t zero h = (48 ∷ [], write_dec_zero t, omega arith, λ k. atoll_zero)
write_dec-atoll t (suc v) h =
    let (ds, e, short, read) = pushed 20 (suc v) [] (omega (arith, h)) in
    (
      ds,
      write_dec_digits t v ds e,
      omega (arith, short),
      λ k.
          ato_digits (2 ^ 63 - 1) ds (starts_pushed 19 v ds e)
          ∙ ap (signed false) (read (2 ^ 63 - 1) (omega (arith, k)))
          ∙ parsed (2 ^ 63 - 1) (suc v),
    )

-- `acc << 4 | d`.
shifted_in : (a d : ℕ) → a < 2 ^ 60 → d < 16 → bit_or (a * 2 ^ 4 % 2 ^ 64) d ≡ a * 16 + d
shifted_in a d h k =
    ap (λ (t : ℕ). bit_or t d) {y = a * 2 ^ 4} (omega (arith, h))
    ∙ bit_or-high 4 a d k
    ∙ omega arith

hex_digit_lem : (d : ℕ) → d < 16 → hex_digit (get_or hex_digits d 0) ≡ some d
unfolding hex_digit hex_digits
hex_digit_lem zero h = refl
hex_digit_lem (suc zero) h = refl
hex_digit_lem (suc (suc zero)) h = refl
hex_digit_lem (suc (suc (suc zero))) h = refl
hex_digit_lem (suc (suc (suc (suc zero)))) h = refl
hex_digit_lem (suc (suc (suc (suc (suc zero))))) h = refl
hex_digit_lem (suc (suc (suc (suc (suc (suc zero)))))) h = refl
hex_digit_lem (suc (suc (suc (suc (suc (suc (suc zero))))))) h = refl
hex_digit_lem (suc (suc (suc (suc (suc (suc (suc (suc zero)))))))) h = refl
hex_digit_lem (suc (suc (suc (suc (suc (suc (suc (suc (suc zero))))))))) h = refl
hex_digit_lem (suc (suc (suc (suc (suc (suc (suc (suc (suc (suc zero)))))))))) h = refl
hex_digit_lem (suc (suc (suc (suc (suc (suc (suc (suc (suc (suc (suc zero))))))))))) h = refl
hex_digit_lem (suc (suc (suc (suc (suc (suc (suc (suc (suc (suc (suc (suc zero)))))))))))) h = refl
hex_digit_lem (suc (suc (suc (suc (suc (suc (suc (suc (suc (suc (suc (suc (suc zero))))))))))))) h =
    refl
hex_digit_lem
      (suc (suc (suc (suc (suc (suc (suc (suc (suc (suc (suc (suc (suc (suc zero)))))))))))))) h =
    refl
hex_digit_lem
      (suc (suc (suc (suc (suc (suc (suc (suc (suc (suc (suc (suc (suc (suc (suc zero)))))))))))))))
      h =
    refl
hex_digit_lem
      (suc
        (suc (suc (suc (suc (suc (suc (suc (suc (suc (suc (suc (suc (suc (suc (suc d))))))))))))))))
      h =
    absurd (omega (arith, h))

hex_loop_digit :
    (acc d : ℕ) (s : List ℕ)
    → acc < 2 ^ 60
    → d < 16
    → hex_loop acc (get_or hex_digits d 0 ∷ s) ≡ hex_loop (acc * 16 + d) s
unfolding hex_loop
hex_loop_digit acc d s h k = ground (arith, hex_digit_lem d k, shifted_in acc d h k)

hex_loop_end : (acc : ℕ) → hex_loop acc [] ≡ some acc
unfolding hex_loop
hex_loop_end acc = refl

abbrev nibble : ℕ → ℕ → ℕ
nibble v n = v / 16 ^ n % 16

hex_prints :
    (n v : ℕ) (l : Bool)
    → (not (l && (nibble v n == 0)) || (n == 0)) ≡ true
    → hex_text (suc n) l v
      ≡ get_or hex_digits (nibble v n) 0 ∷ hex_text n (l && (nibble v n == 0)) v
unfolding hex_text
hex_prints n v l e = ground (arith, e)

hex_skips :
    (n v : ℕ) (l : Bool)
    → (not (l && (nibble v n == 0)) || (n == 0)) ≡ false
    → hex_text (suc n) l v ≡ hex_text n (l && (nibble v n == 0)) v
unfolding hex_text
hex_skips n v l e = ground (arith, e)

next_prefix : (n v : ℕ) → v / 16 ^ suc n * 16 + nibble v n ≡ v / 16 ^ n
next_prefix n v =
    let e : v / 16 ^ suc n ≡ v / 16 ^ n / 16 =
      ap (λ (t : ℕ). v / t) (pow-suc 16 n ∙ omega arith) ∙ sym (div-div-eq-div-mul v (16 ^ n) 16) in
    omega (arith, e)

hex_text-zero : (l : Bool) (v : ℕ) → hex_text 0 l v ≡ []
unfolding hex_text
hex_text-zero l v = refl

-- With the digits before as `acc`, the rest of the text reads as the number.
hex_read :
    (n v acc : ℕ) (l : Bool)
    → v < 2 ^ 64
    → acc ≡ v / 16 ^ n
    → (l ≡ true → acc ≡ 0)
    → hex_loop acc (hex_text n l v) ≡ some v
hex_read zero v acc l h e z =
    ap (hex_loop acc) (hex_text-zero l v) ∙ hex_loop_end acc ∙ ap some (omega (arith, e))
hex_read (suc n) v acc l h e z = elim (Bool-cases (not (l && (nibble v n == 0)) || (n == 0))) [
  | inl print ↦
      ap (hex_loop acc) (hex_prints n v l print)
      ∙ hex_loop_digit acc (nibble v n) _ small (omega arith)
      ∙ hex_read n v (acc * 16 + nibble v n) (l && (nibble v n == 0)) h next still
  | inr skip ↦
      ap (hex_loop acc) (hex_skips n v l skip)
      ∙ hex_read n v acc (l && (nibble v n == 0)) h (ground (arith, next, still, skip, z))
          (ground (arith, z))
]
  where
    next : acc * 16 + nibble v n ≡ v / 16 ^ n
    next = omega (arith, e, next_prefix n v)

    still : (l && (nibble v n == 0)) ≡ true → acc * 16 + nibble v n ≡ 0
    still b = ground (arith, b, z)

    small : acc < 2 ^ 60
    small = omega (arith, next, div-le_self v (16 ^ n), h)

starts_digit : (d : ℕ) (s : List ℕ) → d < 16 → starts_hex (get_or hex_digits d 0 ∷ s) ≡ true
unfolding starts_hex
starts_digit d s h = ground (arith, hex_digit_lem d h)

starts_printed :
    (n v : ℕ) (l : Bool)
    → (not (l && (nibble v n == 0)) || (n == 0)) ≡ true
    → starts_hex (hex_text (suc n) l v) ≡ true
starts_printed n v l print =
    ap starts_hex (hex_prints n v l print)
    ∙ starts_digit (nibble v n) (hex_text n (l && (nibble v n == 0)) v) (omega arith)

-- The text of a number starts with a hexadecimal digit.
starts_hex-text : (n v : ℕ) (l : Bool) → starts_hex (hex_text (suc n) l v) ≡ true
starts_hex-text zero v l = starts_printed 0 v l (ground arith)
starts_hex-text (suc n) v l =
    elim (Bool-cases (not (l && (nibble v (suc n) == 0)) || (suc n == 0))) [
      | inl print ↦ starts_printed (suc n) v l print
      | inr skip ↦
          ap starts_hex (hex_skips (suc n) v l skip)
          ∙ starts_hex-text n v (l && (nibble v (suc n) == 0))
    ]

hex_to_u64-prefix :
    (s : List ℕ) → starts_hex s ≡ true → hex_to_u64 (some (48 ∷ 120 ∷ s)) true ≡ hex_loop 0 s
unfolding hex_to_u64 skip_prefix skip_spaces is_space
hex_to_u64-prefix s e = ground (arith, e)

write_hex_text : (t : Terminal) (v : ℕ) → write_hex t v ≡ write t (48 ∷ 120 ∷ hex_text 16 true v)
unfolding write_hex write
write_hex_text t v = refl

-- `writeHex` of a 64-bit number prints "0x" and digits that `hex_to_u64` reads back as the number.
pub write_hex-hex_to_u64 :
    (t : Terminal) (v : ℕ)
    → v < 2 ^ 64
    → (write_hex t v ≡ write t (48 ∷ 120 ∷ hex_text 16 true v))
      × (hex_to_u64 (some (48 ∷ 120 ∷ hex_text 16 true v)) true ≡ some v)
write_hex-hex_to_u64 t v h = (
  write_hex_text t v,
  hex_to_u64-prefix (hex_text 16 true v) (starts_hex-text 15 v true)
      ∙ hex_read 16 v 0 true h (omega (arith, h)) (λ e. refl),
)
