-- ===== src/Keyboard/Tests.antt =====
-- The laws of src/drivers/keyboard/keyboard.cpp at concrete keys.
use weng_shi_os.Base.{ℕ, false, replicate, length-replicate, some, arith}
use weng_shi_os.Keyboard.{Keyboard, on_irq}
use weng_shi_os.Keyboard.Queue.{IsValid, Read, get_char-Read}
use weng_shi_os.Keyboard.Typing.{Typed, on_irq-Typed}

-- One character waits, and the next place is the last.
abbrev quiet : Keyboard
quiet = record {
  buffer = replicate 256 97;
  head = 255;
  tail = 254;
  shift_pressed = false;
  extended = false;
  focused_task_id = 4;
  on_char_callback = some 9;
}

quiet-IsValid : IsValid quiet
quiet-IsValid = record {
  size = length-replicate {A = ℕ} 256 97;
  head_in = omega arith;
  tail_in = omega arith;
}

get_char-Read_example : Read quiet (some 4)
get_char-Read_example = get_char-Read quiet (some 4) quiet-IsValid

on_irq-Typed_example : Typed quiet 30 (on_irq quiet 30)
on_irq-Typed_example = on_irq-Typed quiet 30 quiet-IsValid (omega arith)
