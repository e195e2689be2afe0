-- ===== src/Keyboard/Typing.antt =====
-- What each scan code does in src/drivers/keyboard/keyboard.cpp.
use Prim.Native.Nat.{bit_and}
use weng_shi_os.Base.{
  ℕ, ◌<◌, ◌≡◌, refl, Bool, true, false, not, ◌==◌, ◌||◌, ◌&&◌, ltb, length, get_or, Option, none,
  some, if◌then◌else◌, arith, ◌∙◌, ap,
}
use weng_shi_os.Base.Bits.{bit_and-bit}
use weng_shi_os.Keyboard.{
  Keyboard, push_char, on_irq, extended_key, typed, scancode_ascii, scancode_ascii_shift,
}
use weng_shi_os.Keyboard.Queue.{IsValid, contents, offer, push_char-offer}

release_bit : (s : ℕ) → s < 256 → (bit_and s 0x80 == 0) ≡ ltb s 128
release_bit s h = ground (arith, bit_and-bit 7 s)

-- The arrow keys behind 0xE0, and the table entries of the other keys.
abbrev pub arrow : ℕ → Option ℕ
arrow s =
    if s == 0x48
    then some 0x80
    else if s == 0x50
    then some 0x81
    else if s == 0x4B
    then some 0x82
    else if s == 0x4D
    then some 0x83
    else none

abbrev pub table_entry : Bool → ℕ → ℕ
table_entry shift s = get_or (if shift then scancode_ascii_shift else scancode_ascii) s 0

abbrev pub plain : Bool → ℕ → Option ℕ
plain shift s =
    if ltb s 128 && not (table_entry shift s == 0) then some (table_entry shift s) else none

-- The character that a scan code types.
abbrev pub key_of : Keyboard → ℕ → Option ℕ
key_of k s = if s == 0xE0 then none else if k.extended then arrow s else plain k.shift_pressed s

abbrev pub shift_after : Keyboard → ℕ → Bool
shift_after k s =
    if k.extended
    then k.shift_pressed
    else if (s == 0x2A) || (s == 0x36)
    then true
    else if (s == 0xAA) || (s == 0xB6)
    then false
    else k.shift_pressed

abbrev pub press : Keyboard → Option ℕ → Keyboard
press k none = k
press k (some c) = push_char k c

-- The same characters wait in two states.
abbrev Alike : Keyboard → Keyboard → Type 0
Alike k l = (k.buffer ≡ l.buffer) × (k.head ≡ l.head) × (k.tail ≡ l.tail)

no_shift_characters : (shift : Bool) → (table_entry shift 0x2A ≡ 0) × (table_entry shift 0x36 ≡ 0)
unfolding scancode_ascii scancode_ascii_shift
no_shift_characters true = (refl, refl)
no_shift_characters false = (refl, refl)

on_irq-Alike : (k : Keyboard) (s : ℕ) → s < 256 → Alike (on_irq k s).0 (press k (key_of k s))
unfolding on_irq extended_key typed push_char
on_irq-Alike k s h = (
  ground (arith, release_bit s h, no_shift_characters k.shift_pressed),
  ground (arith, release_bit s h, no_shift_characters k.shift_pressed),
  ground (arith, release_bit s h, no_shift_characters k.shift_pressed),
)

on_irq-shift : (k : Keyboard) (s : ℕ) → s < 256 → (on_irq k s).0.shift_pressed ≡ shift_after k s
unfolding on_irq extended_key typed push_char
on_irq-shift k s h = ground (arith, release_bit s h)

on_irq-extended : (k : Keyboard) (s : ℕ) → s < 256 → (on_irq k s).0.extended ≡ (s == 0xE0)
unfolding on_irq extended_key typed push_char
on_irq-extended k s h = ground (arith, release_bit s h)

-- The callback is for the plain keys that type a character.
abbrev pub calls : Keyboard → ℕ → Bool
calls k s = not k.extended && elim (key_of k s) [ none ↦ false | some c ↦ true ]

on_irq-calls :
    (k : Keyboard) (s : ℕ)
    → s < 256
    → ((on_irq k s).1 ≡ (if calls k s then k.on_char_callback else none))
      × ((on_irq k s).0.on_char_callback ≡ (if calls k s then none else k.on_char_callback))
unfolding on_irq extended_key typed push_char
on_irq-calls k s h = (
  ground (arith, release_bit s h, no_shift_characters k.shift_pressed),
  ground (arith, release_bit s h, no_shift_characters k.shift_pressed),
)

-- What an interrupt with scan code `s` does.
pub record Typed (k : Keyboard) (s : ℕ) (r : Keyboard × Option ℕ) : Type 0 where
  pub valid : IsValid r.0
  pub queue : contents r.0 ≡ elim (key_of k s) [ none ↦ contents k | some c ↦ offer (contents k) c ]
  pub shift : r.0.shift_pressed ≡ shift_after k s
  pub extended : r.0.extended ≡ (s == 0xE0)
  pub called : r.1 ≡ (if calls k s then k.on_char_callback else none)
  pub cleared : r.0.on_char_callback ≡ (if calls k s then none else k.on_char_callback)

press-IsValid : (k : Keyboard) (c : Option ℕ) → IsValid k → IsValid (press k c)
press-IsValid k none v = v
press-IsValid k (some c) v = (push_char-offer k c v).0

contents-press :
    (k : Keyboard) (c : Option ℕ)
    → IsValid k
    → contents (press k c) ≡ elim c [ none ↦ contents k | some d ↦ offer (contents k) d ]
contents-press k none v = refl
contents-press k (some c) v = (push_char-offer k c v).1

Alike-IsValid : (k l : Keyboard) → Alike k l → IsValid l → IsValid k
Alike-IsValid k l a v = record {
  size = ap length a.0 ∙ v.size;
  head_in = omega (arith, a, v.head_in);
  tail_in = omega (arith, a, v.tail_in);
}

contents-Alike : (k l : Keyboard) → Alike k l → contents k ≡ contents l
contents-Alike k l a = rw (a.0, a.1, a.2) refl

-- On a valid ring an interrupt keeps the ring valid, puts the character that the scan code types,
-- if any, at the end of the queue (or drops it when 255 wait), follows the shift keys and the
-- extended codes, and calls the callback, once, exactly for a plain key that types a character.
pub on_irq-Typed : (k : Keyboard) (s : ℕ) → IsValid k → s < 256 → Typed k s (on_irq k s)
on_irq-Typed k s v h = record {
  valid =
      Alike-IsValid (on_irq k s).0 (press k (key_of k s)) (on_irq-Alike k s h)
        (press-IsValid k (key_of k s) v);
  queue =
      contents-Alike (on_irq k s).0 (press k (key_of k s)) (on_irq-Alike k s h)
      ∙ contents-press k (key_of k s) v;
  shift = on_irq-shift k s h;
  extended = on_irq-extended k s h;
  called = (on_irq-calls k s h).0;
  cleared = (on_irq-calls k s h).1;
}
