-- ===== src/Printf/Typed.antt =====
-- The formats and arguments on which src/libc/printf.cpp has a defined result.
use weng_shi_os.Base.{ℕ, ◌^◌, ◌<◌, ◌≡◌, ◌≢◌, Bool, true, false, ◌==◌, List, [], ◌∷◌, Option}
use weng_shi_os.Printf.{
  Arg, text, word, Directive, as_text, as_char, as_foreground, as_background, as_signed,
  as_unsigned, as_hex, as_pointer, as_binary, as_octal, percent, other, directive,
}

-- Whether a directive takes a word.
abbrev pub takes_word : Directive → Bool
takes_word as_text = false
takes_word percent = false
takes_word other = false
takes_word as_char = true
takes_word as_foreground = true
takes_word as_background = true
takes_word as_signed = true
takes_word as_unsigned = true
takes_word as_hex = true
takes_word as_pointer = true
takes_word as_binary = true
takes_word as_octal = true

abbrev pub takes_nothing : Directive → Bool
takes_nothing percent = true
takes_nothing other = true
takes_nothing as_text = false
takes_nothing as_char = false
takes_nothing as_foreground = false
takes_nothing as_background = false
takes_nothing as_signed = false
takes_nothing as_unsigned = false
takes_nothing as_hex = false
takes_nothing as_pointer = false
takes_nothing as_binary = false
takes_nothing as_octal = false

-- The format goes with the arguments. A word has 64 bits and is not the least signed number.
pub data Typed : List ℕ → List Arg → Type 0 where
  at_end : {args : List Arg} → Typed [] args
  plain :
      {c : ℕ} {format : List ℕ} {args : List Arg}
      → (c == 37) ≡ false
      → Typed format args
      → Typed (c ∷ format) args
  with_a_text :
      {d : ℕ} {format : List ℕ} {s : Option (List ℕ)} {args : List Arg}
      → directive d ≡ as_text
      → Typed format args
      → Typed (37 ∷ d ∷ format) (text s ∷ args)
  with_a_word :
      {d w : ℕ} {format : List ℕ} {args : List Arg}
      → takes_word (directive d) ≡ true
      → w < 2 ^ 64
      → w ≢ 2 ^ 63
      → Typed format args
      → Typed (37 ∷ d ∷ format) (word w ∷ args)
  with_nothing :
      {d : ℕ} {format : List ℕ} {args : List Arg}
      → takes_nothing (directive d) ≡ true
      → Typed format args
      → Typed (37 ∷ d ∷ format) args
