-- ===== src/Printf.antt =====
-- src/libc/printf.cpp on the text screen of src/drivers/vga. An argument is a text or a 64-bit word;
-- `none` is a case that C++ leaves undefined: an argument that is missing or of the other kind, the
-- negation of the least number, a format that ends in a single `%`.
pub mod Radix
pub mod Typed
pub mod Returns
mod Tests
use weng_shi_os.Base.{
  ℕ, zero, suc, ◌+◌, ◌-◌, ◌*◌, ◌/◌, ◌%◌, ◌^◌, Bool, true, false, ◌==◌, ltb, List, [], ◌∷◌, Option,
  none, some, if◌then◌else◌,
}
use weng_shi_os.Terminal.{
  Terminal, write, write_dec, write_hex, set_color_foreground, set_color_background,
}

-- A text may be the null pointer.
pub data Arg : Type 0 where
  text : Option (List ℕ) → Arg
  word : ℕ → Arg

-- The loops of `%b` and `%o`, with the room left in the buffer.
unfoldable pub push_radix : ℕ → ℕ → ℕ → List ℕ → Option (List ℕ)
push_radix radix room zero stack = some stack
push_radix radix zero (suc v) stack = none
push_radix radix (suc room) (suc v) stack =
    push_radix radix room (suc v / radix) ((48 + suc v % radix) ∷ stack)

unfoldable pub print_radix : ℕ → ℕ → Terminal → ℕ → Option Terminal
print_radix radix room t val =
    if val == 0
    then some (write t (48 ∷ []))
    else elim (push_radix radix room val []) [ none ↦ none | some digits ↦ some (write t digits) ]

unfoldable pub print_signed : Terminal → ℕ → Option Terminal
print_signed t val =
    if ltb val (2 ^ 63)
    then write_dec t val
    else if val == 2 ^ 63
    then none
    else write_dec (write t (45 ∷ [])) (2 ^ 64 - val)

-- A text that ends at a NUL in front is empty.
unfoldable pub print_char : Terminal → ℕ → Terminal
print_char t c = if c == 0 then t else write t (c ∷ [])

unfoldable pub print_text : Terminal → Option (List ℕ) → Terminal
print_text t none = write t (40 ∷ 110 ∷ 117 ∷ 108 ∷ 108 ∷ 41 ∷ [])
print_text t (some str) = write t str

-- `va_arg` for a word and for a text.
unfoldable pub with_word : List Arg → (ℕ → Option Terminal) → Option (Terminal × List Arg)
with_word [] print = none
with_word (text s ∷ args) print = none
with_word (word w ∷ args) print = elim (print w) [ none ↦ none | some t ↦ some (t, args) ]

unfoldable pub with_text : List Arg → (Option (List ℕ) → Terminal) → Option (Terminal × List Arg)
with_text [] print = none
with_text (word w ∷ args) print = none
with_text (text s ∷ args) print = some (print s, args)

-- The directives: %s %c %r %R %d %u %x %p %b %o %%.
pub data Directive : Type 0 where
  as_text as_char as_foreground as_background as_signed as_unsigned as_hex as_pointer as_binary
        as_octal percent other :
      Directive

unfoldable pub directive : ℕ → Directive
directive c =
    if c == 115
    then as_text
    else if c == 99
    then as_char
    else if c == 114
    then as_foreground
    else if c == 82
    then as_background
    else if c == 100
    then as_signed
    else if c == 117
    then as_unsigned
    else if c == 120
    then as_hex
    else if c == 112
    then as_pointer
    else if c == 98
    then as_binary
    else if c == 111
    then as_octal
    else if c == 37
    then percent
    else other

-- The switch, for the directive of the character `c`.
unfoldable pub print_directive : Directive → ℕ → Terminal → List Arg → Option (Terminal × List Arg)
print_directive as_text c t args = with_text args (print_text t)
print_directive as_char c t args = with_word args (λ w. some (print_char t (w % 2 ^ 8)))
print_directive as_foreground c t args =
    with_word args (λ w. some (set_color_foreground t (w % 2 ^ 8)))
print_directive as_background c t args =
    with_word args (λ w. some (set_color_background t (w % 2 ^ 8)))
print_directive as_signed c t args = with_word args (print_signed t)
print_directive as_unsigned c t args = with_word args (write_dec t)
print_directive as_hex c t args = with_word args (λ w. some (write_hex t w))
print_directive as_pointer c t args =
    with_word args (λ w. some (write_hex (write t (48 ∷ 120 ∷ [])) w))
print_directive as_binary c t args = with_word args (print_radix 2 64 t)
print_directive as_octal c t args = with_word args (print_radix 8 22 t)
print_directive percent c t args = some (write t (37 ∷ []), args)
print_directive other c t args = some (write t (37 ∷ c ∷ []), args)

unfoldable pub printf : Terminal → List ℕ → List Arg → Option Terminal
printf t [] args = some t
printf t (c ∷ []) args = if c == 37 then none else some (write t (c ∷ []))
printf t (c ∷ d ∷ format) args = elim (c == 37) [
  | true ↦ elim (print_directive (directive d) d t args) [
    | none ↦ none
    | some (t', args') ↦ printf t' format args'
  ]
  | false ↦ printf (write t (c ∷ [])) (d ∷ format) args
]
