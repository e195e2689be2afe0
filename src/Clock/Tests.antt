-- ===== src/Clock/Tests.antt =====
-- The law of src/drivers/cmos/rtc.cpp at a clock in decimal mode at 59 seconds.
use weng_shi_os.Base.{ℕ, ◌≡◌, refl, ◌==◌, if◌then◌else◌}
use weng_shi_os.Clock.{data_mode, read_seconds}
use weng_shi_os.Clock.Bcd.{held, read_field-held}

abbrev at_59 : ℕ → ℕ
at_59 r = if r == 0 then 0x59 else 0

is_held : at_59 0 ≡ held (data_mode at_59) 59
unfolding data_mode
is_held = refl

read_field-held_example : read_seconds at_59 ≡ 59
read_field-held_example = read_field-held at_59 0 59 is_held
