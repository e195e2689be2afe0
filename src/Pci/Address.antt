-- ===== src/Pci/Address.antt =====
-- The configuration addresses of src/drivers/pci/pci.cpp.
use Prim.Native.Nat.{bit_and, bit_or}
use weng_shi_os.Base.{ℕ, ◌+◌, ◌-◌, ◌*◌, ◌/◌, ◌%◌, ◌^◌, ◌<◌, ◌≡◌, arith, ◌∙◌}
use weng_shi_os.Base.Bits.{bit_or-high, bit_or-low, bit_and_step, bit_and-ones}
use weng_shi_os.Pci.{get_address}

-- `offset & 0xFC`
word_offset : (offset : ℕ) → offset < 256 → bit_and offset 0xFC ≡ offset - offset % 4
word_offset offset o =
    let high : bit_and (offset / 2 / 2) 0x3F ≡ offset / 2 / 2 =
      bit_and-ones 6 (offset / 2 / 2) (omega (arith, o)) in
    let middle : bit_and (offset / 2) 0x7E ≡ offset / 2 - offset / 2 % 2 =
      omega (arith, bit_and_step (offset / 2) 0x7E, high) in
    omega (arith, bit_and_step offset 0xFC, middle)

-- The sum that the address is.
address_sum :
    (bus slot func offset : ℕ)
    → slot < 32
    → func < 8
    → offset < 256
    → bus < 256
    → get_address bus slot func offset
      ≡ 2 ^ 31 + (bus * 2 ^ 16 + slot * 2 ^ 11 + func * 2 ^ 8 + (offset - offset % 4))
unfolding get_address
address_sum bus slot func offset s f o b =
    let one : bit_or (bus * 2 ^ 16) (slot * 2 ^ 11) ≡ (bus * 32 + slot) * 2 ^ 11 =
      bit_or-high 16 bus (slot * 2 ^ 11) (omega (arith, s)) ∙ omega arith in
    let two : bit_or ((bus * 32 + slot) * 2 ^ 11) (func * 2 ^ 8)
        ≡ ((bus * 32 + slot) * 8 + func) * 2 ^ 8 =
      bit_or-high 11 (bus * 32 + slot) (func * 2 ^ 8) (omega (arith, f)) ∙ omega arith in
    let low = word_offset offset o in
    let three =
      bit_or-high 8 ((bus * 32 + slot) * 8 + func) (offset - offset % 4) (omega (arith, o)) in
    let four =
      bit_or-low 31 1 (((bus * 32 + slot) * 8 + func) * 2 ^ 8 + (offset - offset % 4))
        (omega (arith, b, s, f, o)) in
    rw one (rw two (rw low (rw three (four ∙ omega arith))))

-- The fields of the address of a register are its enable bit, the bus, the slot, the function and
-- the register, for arguments in range: no two of them overlap.
pub get_address-fields :
    (bus slot func offset : ℕ)
    → bus < 256
    → slot < 32
    → func < 8
    → offset < 256
    → offset % 4 ≡ 0
    → (get_address bus slot func offset / 2 ^ 31 ≡ 1)
      × (get_address bus slot func offset / 2 ^ 16 % 2 ^ 8 ≡ bus)
      × (get_address bus slot func offset / 2 ^ 11 % 2 ^ 5 ≡ slot)
      × (get_address bus slot func offset / 2 ^ 8 % 2 ^ 3 ≡ func)
      × (get_address bus slot func offset % 2 ^ 8 ≡ offset)
get_address-fields bus slot func offset b s f o w =
    let e = address_sum bus slot func offset s f o b in
    (
      omega (arith, e, b, s, f, o, w),
      omega (arith, e, b, s, f, o, w),
      omega (arith, e, b, s, f, o, w),
      omega (arith, e, b, s, f, o, w),
      omega (arith, e, b, s, f, o, w),
    )
