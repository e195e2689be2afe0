-- ===== src/Clock/Bcd.antt =====
-- The two formats of the clock's registers in src/drivers/cmos/rtc.cpp.
use Prim.Native.Nat.{bit_and}
use weng_shi_os.Base.{
  ℕ, ◌+◌, ◌*◌, ◌/◌, ◌%◌, ◌≡◌, Bool, true, false, ◌∙◌, if◌then◌else◌, arith, Bool-cases, inl, inr,
  ap,
}
use weng_shi_os.Base.Bits.{bit_and_step, bit_and-zero}
use weng_shi_os.Clock.{bcd_to_int, data_mode, read_field}

low_nibble : (x : ℕ) → bit_and x 0x0F ≡ x % 16
low_nibble x = omega (
  arith,
  bit_and_step x 15,
  bit_and_step (x / 2) 7,
  bit_and_step (x / 2 / 2) 3,
  bit_and_step (x / 2 / 2 / 2) 1,
  bit_and-zero (x / 2 / 2 / 2 / 2),
)

-- How the clock holds a number: as it is in binary mode, and else with a decimal
-- digit in each half of the byte.
abbrev pub held : Bool → ℕ → ℕ
held binary n = if binary then n else n / 10 * 16 + n % 10

bcd_to_int-held : (n : ℕ) → bcd_to_int (held false n) ≡ n
unfolding bcd_to_int
bcd_to_int-held n = omega (arith, low_nibble (n / 10 * 16 + n % 10))

field_binary : (regs : ℕ → ℕ) (r : ℕ) → data_mode regs ≡ true → read_field regs r ≡ regs r
unfolding read_field
field_binary regs r e = rw (e, read_field)

field_decimal :
    (regs : ℕ → ℕ) (r : ℕ) → data_mode regs ≡ false → read_field regs r ≡ bcd_to_int (regs r)
unfolding read_field
field_decimal regs r e = rw (e, read_field)

-- Every reader of the clock answers the number that its register holds, in the mode that the clock
-- is in.
pub read_field-held :
    (regs : ℕ → ℕ) (r n : ℕ) → regs r ≡ held (data_mode regs) n → read_field regs r ≡ n
read_field-held regs r n e = elim (Bool-cases (data_mode regs)) [
  | inl b ↦ field_binary regs r b ∙ ground (arith, e, b)
  | inr b ↦ field_decimal regs r b ∙ ap bcd_to_int (ground (arith, e, b)) ∙ bcd_to_int-held n
]
