-- ===== src/Pic/Lines.antt =====
-- The sixteen interrupt lines behind the two mask registers of src/arch/x86_64/pic.cpp.
use Prim.Native.Nat.{bit_and, bit_or}
use weng_shi_os.Base.{ℕ, zero, suc, ◌-◌, ◌%◌, ◌^◌, ◌<◌, ◌≡◌, ◌==◌, if◌then◌else◌, arith}
use weng_shi_os.Base.Bits.{bit_at, bit_at-bit_or, bit_at-clear}
use weng_shi_os.Pic.{data_port, irq_line, set_mask, clear_mask}

-- A byte keeps the eight low bits.
bit_at-byte : (j x : ℕ) → j < 8 → bit_at (x % 2 ^ 8) j ≡ bit_at x j
bit_at-byte zero x h = omega arith
bit_at-byte (suc zero) x h = omega arith
bit_at-byte (suc (suc zero)) x h = omega arith
bit_at-byte (suc (suc (suc zero))) x h = omega arith
bit_at-byte (suc (suc (suc (suc zero)))) x h = omega arith
bit_at-byte (suc (suc (suc (suc (suc zero))))) x h = omega arith
bit_at-byte (suc (suc (suc (suc (suc (suc zero)))))) x h = omega arith
bit_at-byte (suc (suc (suc (suc (suc (suc (suc zero))))))) x h = omega arith
bit_at-byte (suc (suc (suc (suc (suc (suc (suc (suc j)))))))) x h = absurd (omega (arith, h))

-- The mask registers after a write to a port.
abbrev pub after_write : (ℕ → ℕ) → ℕ × ℕ → ℕ → ℕ
after_write inb w port = if w.0 == port then w.1 else inb port

-- Whether a line is masked.
abbrev pub masked : (ℕ → ℕ) → ℕ → ℕ
masked inb irq = bit_at (inb (data_port irq)) (irq_line irq)

line_in : (irq : ℕ) → irq < 16 → irq_line irq < 8
line_in irq h = ground (arith, h)

-- `setMask` masks its line of the sixteen and no other.
pub masked-set_mask :
    (inb : ℕ → ℕ) (irq other : ℕ)
    → irq < 16
    → other < 16
    → masked (after_write inb (set_mask inb irq)) other
      ≡ (if irq == other then 1 else masked inb other)
unfolding set_mask
masked-set_mask inb irq other h k = ground (
  arith,
  bit_at-byte (irq_line other) (bit_or (inb (data_port irq)) (2 ^ irq_line irq)) (line_in other k),
  bit_at-bit_or (irq_line irq) (irq_line other) (inb (data_port irq)),
)

-- `clearMask` unmasks its line of the sixteen and no other.
pub masked-clear_mask :
    (inb : ℕ → ℕ) (irq other : ℕ)
    → irq < 16
    → other < 16
    → masked (after_write inb (clear_mask inb irq)) other
      ≡ (if irq == other then 0 else masked inb other)
unfolding clear_mask
masked-clear_mask inb irq other h k = ground (
  arith,
  bit_at-byte (irq_line other) (bit_and (inb (data_port irq)) (2 ^ 32 - 1 - 2 ^ irq_line irq))
      (line_in other k),
  bit_at-clear 32 (irq_line irq) (irq_line other) (inb (data_port irq)),
  line_in irq h,
  line_in other k,
)
