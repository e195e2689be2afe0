-- ===== src/Keyboard.antt =====
-- src/drivers/keyboard/keyboard.cpp: scan codes to characters, and the ring of typed characters.
pub mod Queue
pub mod Typing
mod Tests
use Prim.Native.Nat.{bit_and}
use weng_shi_os.Base.{
  ℕ, zero, suc, ◌+◌, ◌%◌, Bool, true, false, not, ◌==◌, ◌||◌, ◌&&◌, leb, List, [], ◌∷◌, set, get_or,
  Option, none, some, if◌then◌else◌,
}

-- A callback is known by a number; the byte that port 0x60 answers is an argument of `on_irq`.
pub record Keyboard : Type 0 where
  pub buffer : List ℕ
  pub head : ℕ
  pub tail : ℕ
  pub shift_pressed : Bool
  pub extended : Bool
  pub focused_task_id : ℕ
  pub on_char_callback : Option ℕ

abbrev pub buffer_size : ℕ
buffer_size = 256

-- The tables from their first entry to the last that is written; the rest of the 128 is zero.
unfoldable pub scancode_ascii : List ℕ
scancode_ascii =
    0 ∷ 27 ∷ 49 ∷ 50 ∷ 51 ∷ 52 ∷ 53 ∷ 54 ∷ 55 ∷ 56 ∷ 57 ∷ 48 ∷ 45 ∷ 61 ∷ 8 ∷ 9 ∷ 113 ∷ 119 ∷ 101
    ∷ 114 ∷ 116 ∷ 121 ∷ 117 ∷ 105 ∷ 111 ∷ 112 ∷ 91 ∷ 93 ∷ 10 ∷ 0 ∷ 97 ∷ 115 ∷ 100 ∷ 102 ∷ 103 ∷ 104
    ∷ 106 ∷ 107 ∷ 108 ∷ 59 ∷ 39 ∷ 96 ∷ 0 ∷ 92 ∷ 122 ∷ 120 ∷ 99 ∷ 118 ∷ 98 ∷ 110 ∷ 109 ∷ 44 ∷ 46 ∷ 47
    ∷ 0 ∷ 42 ∷ 0 ∷ 32 ∷ 0 ∷ []

unfoldable pub scancode_ascii_shift : List ℕ
scancode_ascii_shift =
    0 ∷ 27 ∷ 33 ∷ 64 ∷ 35 ∷ 36 ∷ 37 ∷ 94 ∷ 38 ∷ 42 ∷ 40 ∷ 41 ∷ 95 ∷ 43 ∷ 8 ∷ 9 ∷ 81 ∷ 87 ∷ 69 ∷ 82
    ∷ 84 ∷ 89 ∷ 85 ∷ 73 ∷ 79 ∷ 80 ∷ 123 ∷ 125 ∷ 10 ∷ 0 ∷ 65 ∷ 83 ∷ 68 ∷ 70 ∷ 71 ∷ 72 ∷ 74 ∷ 75 ∷ 76
    ∷ 58 ∷ 34 ∷ 126 ∷ 0 ∷ 124 ∷ 90 ∷ 88 ∷ 67 ∷ 86 ∷ 66 ∷ 78 ∷ 77 ∷ 60 ∷ 62 ∷ 63 ∷ 0 ∷ 42 ∷ 0 ∷ 32
    ∷ 0 ∷ []

unfoldable pub push_char : Keyboard → ℕ → Keyboard
push_char k c =
    let next = (k.head + 1) % buffer_size in
    if next == k.tail then k else record k { buffer = set k.buffer k.head c; head = next }

abbrev pub set_focus : Keyboard → ℕ → Keyboard
set_focus k task_id = record k { focused_task_id = task_id }

abbrev pub set_on_char_callback : Keyboard → Option ℕ → Keyboard
set_on_char_callback k cb = record k { on_char_callback = cb }

-- `current` is the id of the scheduler's current task, if there is one.
unfoldable pub caller_is_focused : Keyboard → Option ℕ → Bool
caller_is_focused k none = k.focused_task_id == 0
caller_is_focused k (some id) = (k.focused_task_id == 0) || (id == k.focused_task_id)

unfoldable pub init : Keyboard → Keyboard
init k = record k { head = 0; tail = 0; shift_pressed = false; extended = false }

-- The second byte of an extended code.
unfoldable pub extended_key : Keyboard → ℕ → Keyboard
unfolding push_char
extended_key k scancode =
    if not (bit_and scancode 0x80 == 0)
    then k
    else if scancode == 0x48
    then push_char k 0x80
    else if scancode == 0x50
    then push_char k 0x81
    else if scancode == 0x4B
    then push_char k 0x82
    else if scancode == 0x4D
    then push_char k 0x83
    else k

-- A character that is not NUL, and the callback that is called at the end, if one is set.
unfoldable pub typed : Keyboard → ℕ → Keyboard × Option ℕ
unfolding push_char
typed k c =
    if c == 0
    then (k, none)
    else (record (push_char k c) { on_char_callback = none }, k.on_char_callback)

unfoldable pub on_irq : Keyboard → ℕ → Keyboard × Option ℕ
unfolding extended_key typed scancode_ascii scancode_ascii_shift
on_irq k scancode =
    if scancode == 0xE0
    then (record k { extended = true }, none)
    else if k.extended
    then (extended_key (record k { extended = false }) scancode, none)
    else if (scancode == 0x2A) || (scancode == 0x36)
    then (record k { shift_pressed = true }, none)
    else if (scancode == 0xAA) || (scancode == 0xB6)
    then (record k { shift_pressed = false }, none)
    else if not (bit_and scancode 0x80 == 0)
    then (k, none)
    else if leb 128 scancode
    then (k, none)
    else typed k
        (get_or (if k.shift_pressed then scancode_ascii_shift else scancode_ascii) scancode 0)

unfoldable pub has_char : Keyboard → Option ℕ → Bool
unfolding caller_is_focused
has_char k current = not (k.head == k.tail) && caller_is_focused k current

unfoldable pub get_char : Keyboard → Option ℕ → Keyboard × ℕ
unfolding caller_is_focused
get_char k current =
    if (k.head == k.tail) || not (caller_is_focused k current)
    then (k, 0)
    else (record k { tail = (k.tail + 1) % buffer_size }, get_or k.buffer k.tail 0)
