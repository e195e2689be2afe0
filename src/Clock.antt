-- ===== src/Clock.antt =====
-- src/drivers/cmos/cmos.cpp and rtc.cpp: the two CMOS calls, as the port writes that they make, in
-- order, and the fields of the real-time clock. What a CMOS register answers is an
-- argument, a function from register numbers to bytes, which does not change while a field is read.
pub mod Bcd
mod Tests
use Prim.Native.Nat.{bit_and, bit_or}
use weng_shi_os.Base.{ℕ, ◌+◌, ◌*◌, ◌/◌, ◌^◌, Bool, true, false, ◌==◌, List, [], ◌∷◌, if◌then◌else◌}

abbrev pub cmos_port_index : ℕ
cmos_port_index = 0x70

abbrev pub cmos_port_data : ℕ
cmos_port_data = 0x71

-- The result is what the data port answers after the write.
abbrev pub read_register : (ℕ → ℕ) → ℕ → List (ℕ × ℕ) × ℕ
read_register inb reg = ((cmos_port_index, bit_or reg 0x80) ∷ [], inb cmos_port_data)

abbrev pub write_register : ℕ → ℕ → List (ℕ × ℕ)
write_register reg value = (cmos_port_data, bit_or reg 0x80) ∷ (cmos_port_index, value) ∷ []

unfoldable pub bcd_to_int : ℕ → ℕ
bcd_to_int bcd = bit_and bcd 0x0F + bcd / 2 ^ 4 * 10

unfoldable pub data_mode : (ℕ → ℕ) → Bool
data_mode regs = bit_and (regs 0x0B) 0b100 / 2 ^ 2 == 1

-- The body that the eight readers share, at their registers.
unfoldable pub read_field : (ℕ → ℕ) → ℕ → ℕ
read_field regs register =
    let value = regs register in if data_mode regs then value else bcd_to_int value

abbrev pub read_hours : (ℕ → ℕ) → ℕ
read_hours regs = read_field regs 0x04

abbrev pub read_minutes : (ℕ → ℕ) → ℕ
read_minutes regs = read_field regs 0x02

abbrev pub read_seconds : (ℕ → ℕ) → ℕ
read_seconds regs = read_field regs 0x00

abbrev pub read_day : (ℕ → ℕ) → ℕ
read_day regs = read_field regs 0x07

abbrev pub read_month : (ℕ → ℕ) → ℕ
read_month regs = read_field regs 0x08

abbrev pub read_year : (ℕ → ℕ) → ℕ
read_year regs = read_field regs 0x09

abbrev pub read_century : (ℕ → ℕ) → ℕ
read_century regs = read_field regs 0x32

abbrev pub read_day_in_week : (ℕ → ℕ) → ℕ
read_day_in_week regs = read_field regs 0x06
