-- ===== src/Pic.antt =====
-- src/arch/x86_64/pic.cpp: masking and acknowledging interrupt lines. The answer of `inb` is an
-- argument, and a call answers what it writes, as ports and bytes in order.
pub mod Lines
use Prim.Native.Nat.{bit_and, bit_or}
use weng_shi_os.Base.{ℕ, ◌-◌, ◌%◌, ◌^◌, Bool, ltb, leb, List, [], ◌∷◌, if◌then◌else◌}

abbrev pub pic1_command : ℕ
pic1_command = 0x20

abbrev pub pic1_data : ℕ
pic1_data = 0x21

abbrev pub pic2_command : ℕ
pic2_command = 0xA0

abbrev pub pic2_data : ℕ
pic2_data = 0xA1

abbrev pub pic_eoi : ℕ
pic_eoi = 0x20

abbrev pub data_port : ℕ → ℕ
data_port irq = if ltb irq 8 then pic1_data else pic2_data

abbrev pub irq_line : ℕ → ℕ
irq_line irq = if ltb irq 8 then irq else irq - 8

unfoldable pub set_mask : (ℕ → ℕ) → ℕ → ℕ × ℕ
set_mask inb irq = (data_port irq, bit_or (inb (data_port irq)) (2 ^ irq_line irq) % 2 ^ 8)

-- The complement is that of a 32-bit `int`.
unfoldable pub clear_mask : (ℕ → ℕ) → ℕ → ℕ × ℕ
clear_mask inb irq =
    (data_port irq, bit_and (inb (data_port irq)) (2 ^ 32 - 1 - 2 ^ irq_line irq) % 2 ^ 8)

unfoldable pub send_eoi : ℕ → List (ℕ × ℕ)
send_eoi irq =
    if leb 8 irq
    then (pic2_command, pic_eoi) ∷ (pic1_command, pic_eoi) ∷ []
    else (pic1_command, pic_eoi) ∷ []

-- The writes of `remap`; the delays between them are left out.
unfoldable pub remap : (ℕ → ℕ) → ℕ → ℕ → List (ℕ × ℕ)
remap inb master_offset slave_offset =
    let mask1 = inb pic1_data in
    let mask2 = inb pic2_data in
    (pic1_command, bit_or 0x10 0x01)
    ∷ (pic2_command, bit_or 0x10 0x01)
    ∷ (pic1_data, master_offset)
    ∷ (pic2_data, slave_offset)
    ∷ (pic1_data, 4)
    ∷ (pic2_data, 2)
    ∷ (pic1_data, 0x01)
    ∷ (pic2_data, 0x01)
    ∷ (pic1_data, mask1)
    ∷ (pic2_data, mask2)
    ∷ []
