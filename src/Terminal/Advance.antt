-- ===== src/Terminal/Advance.antt =====
-- The cursor of src/drivers/vga/terminal.cpp as one position that runs over the screen.
use weng_shi_os.Base.{
  ℕ, ◌+◌, ◌*◌, ◌/◌, ◌%◌, ◌^◌, ◌<◌, ◌≤◌, ◌≡◌, refl, true, false, ◌==◌, List, [], ◌∷◌, if◌then◌else◌,
  arith, Bool-cases, inl, inr, ◌∙◌, ap,
}
use weng_shi_os.Base.Mem.{Mem, poke}
use weng_shi_os.Terminal.{
  Terminal, vga_entry, scroll, newline, put_char, write, backspace, update_hardware_cursor,
}
use weng_shi_os.Terminal.Scroll.{moved_up, scroll_lem}

-- The cursor is on the screen, above the status bar.
pub record IsValid (t : Terminal) : Type 0 where
  pub row_in : t.row < 24
  pub column_in : t.column < 80

abbrev pub position : Terminal → ℕ
position t = t.row * 80 + t.column

-- Where a character puts the cursor, before the screen moves up.
abbrev pub advance : ℕ → ℕ → ℕ
advance p c = if c == 10 then (p / 80 + 1) * 80 else p + 1

abbrev pub cells_with : Terminal → ℕ → Mem
cells_with t c = if c == 10 then t.buffer else poke t.buffer (position t) (vga_entry c t.color)

-- What a character does to the screen: it stands at the cursor, which moves on, and the screen
-- moves up by a row when the cursor leaves it.
pub record Advanced (t : Terminal) (c : ℕ) (t' : Terminal) : Type 0 where
  pub valid : IsValid t'
  pub color : t'.color ≡ t.color
  pub cursor :
      position t' ≡ (if advance (position t) c == 1920 then 1840 else advance (position t) c)
  pub cells :
      (q : ℕ)
      → t'.buffer q ≡ (
          if advance (position t) c == 1920
          then moved_up (cells_with t c) t.color q
          else cells_with t c q)

scroll_keeps :
    (t : Terminal)
    → ((scroll t).row ≡ t.row) × ((scroll t).column ≡ t.column) × ((scroll t).color ≡ t.color)
unfolding scroll
scroll_keeps t = (refl, refl, refl)

newline_last : (t : Terminal) → (t.row == 23) ≡ true → newline t ≡ scroll (record t { column = 0 })
unfolding newline
newline_last t e = ground (arith, e)

newline_above :
    (t : Terminal)
    → (t.row == 23) ≡ false
    → newline t ≡ record t { column = 0; row = (t.row + 1) % 2 ^ 16 }
unfolding newline
newline_above t e = ground (arith, e)

newline_row :
    (t : Terminal) → t.row < 24 → (newline t).row ≡ (if t.row == 23 then 23 else t.row + 1)
newline_row t h = elim (Bool-cases (t.row == 23)) [
  | inl e ↦
      ap (λ (u : Terminal). u.row) (newline_last t e)
      ∙ (scroll_keeps (record t { column = 0 })).0
      ∙ ground (arith, e)
  | inr e ↦ ap (λ (u : Terminal). u.row) (newline_above t e) ∙ ground (arith, e, h)
]

newline_column : (t : Terminal) → (newline t).column ≡ 0
newline_column t = elim (Bool-cases (t.row == 23)) [
  | inl e ↦
      ap (λ (u : Terminal). u.column) (newline_last t e)
      ∙ (scroll_keeps (record t { column = 0 })).1
  | inr e ↦ ap (λ (u : Terminal). u.column) (newline_above t e)
]

newline_color : (t : Terminal) → (newline t).color ≡ t.color
newline_color t = elim (Bool-cases (t.row == 23)) [
  | inl e ↦
      ap (λ (u : Terminal). u.color) (newline_last t e) ∙ (scroll_keeps (record t { column = 0 })).2
  | inr e ↦ ap (λ (u : Terminal). u.color) (newline_above t e)
]

newline_cells :
    (t : Terminal) (q : ℕ)
    → (newline t).buffer q ≡ (if t.row == 23 then moved_up t.buffer t.color q else t.buffer q)
newline_cells t q = elim (Bool-cases (t.row == 23)) [
  | inl e ↦
      ap (λ (u : Terminal). u.buffer q) (newline_last t e)
      ∙ scroll_lem (record t { column = 0 }) q
      ∙ ground (arith, e)
  | inr e ↦ ap (λ (u : Terminal). u.buffer q) (newline_above t e) ∙ ground (arith, e)
]

-- The terminal once the character is in its cell and the column is counted up.
abbrev stepped : Terminal → ℕ → Terminal
stepped t c = record t {
  buffer = poke t.buffer (t.row * 80 + t.column) (vga_entry c t.color);
  column = (t.column + 1) % 2 ^ 16;
}

put_newline : (t : Terminal) (c : ℕ) → (c == 10) ≡ true → put_char t c ≡ newline t
unfolding put_char
put_newline t c e = ground (arith, e)

put_inside :
    (t : Terminal) (c : ℕ)
    → (c == 10) ≡ false
    → ((t.column + 1) % 2 ^ 16 == 80) ≡ false
    → put_char t c ≡ update_hardware_cursor (stepped t c)
unfolding put_char
put_inside t c e f = ground (arith, e, f)

put_at_end :
    (t : Terminal) (c : ℕ)
    → (c == 10) ≡ false
    → ((t.column + 1) % 2 ^ 16 == 80) ≡ true
    → put_char t c ≡ update_hardware_cursor (newline (stepped t c))
unfolding put_char
put_at_end t c e f = ground (arith, e, f)

Advanced-newline : (t : Terminal) (c : ℕ) → IsValid t → (c == 10) ≡ true → Advanced t c (newline t)
Advanced-newline t c v e = record {
  valid = record {
    row_in = ground (arith, newline_row t v.row_in, v.row_in);
    column_in = ground (arith, newline_column t);
  };
  color = newline_color t;
  cursor = ground (arith, newline_row t v.row_in, newline_column t, e, v.column_in, v.row_in);
  cells = λ q. ground (arith, newline_cells t q, e, v.column_in, v.row_in);
}

Advanced-wrap :
    (t : Terminal) (c : ℕ)
    → IsValid t
    → (c == 10) ≡ false
    → t.column ≡ 79
    → Advanced t c (update_hardware_cursor (newline (stepped t c)))
unfolding update_hardware_cursor
Advanced-wrap t c v e f = record {
  valid = record {
    row_in = ground (arith, newline_row (stepped t c) v.row_in, v.row_in);
    column_in = ground (arith, newline_column (stepped t c));
  };
  color = newline_color (stepped t c);
  cursor =
      ground
        (arith, newline_row (stepped t c) v.row_in, newline_column (stepped t c), e, f, v.row_in);
  cells = λ q. newline_cells (stepped t c) q ∙ ground (arith, e, f, v.row_in);
}

Advanced-step :
    (t : Terminal) (c : ℕ)
    → IsValid t
    → (c == 10) ≡ false
    → t.column + 1 < 80
    → Advanced t c (update_hardware_cursor (stepped t c))
unfolding update_hardware_cursor
Advanced-step t c v e f = record {
  valid = record { row_in = v.row_in; column_in = omega arith };
  color = refl;
  cursor = ground (arith, e, f, v.row_in);
  cells = λ q. ground (arith, e, f, v.row_in);
}

-- `putChar` with the cursor on the screen does what `Advanced` says.
pub put_char-Advanced : (t : Terminal) (c : ℕ) → IsValid t → Advanced t c (put_char t c)
put_char-Advanced t c v = elim (Bool-cases (c == 10)) [
  | inl e ↦ rw (put_newline t c e) (Advanced-newline t c v e)
  | inr e ↦ elim (Bool-cases ((t.column + 1) % 2 ^ 16 == 80)) [
    | inl f ↦ rw (put_at_end t c e f) (Advanced-wrap t c v e (ground (arith, f, v.column_in)))
    | inr f ↦ rw (put_inside t c e f) (Advanced-step t c v e (ground (arith, f, v.column_in)))
  ]
]

-- `write` of any text keeps the cursor on the screen and does not touch the status bar, the row
-- below the screen, nor anything behind it.
pub write-IsValid :
    (s : List ℕ) (t : Terminal)
    → IsValid t
    → IsValid (write t s) × ((q : ℕ) → 1920 ≤ q → (write t s).buffer q ≡ t.buffer q)
unfolding write
write-IsValid [] t v = (v, λ q h. refl)
write-IsValid (c ∷ s) t v =
    let a : Advanced t c (put_char t c) = put_char-Advanced t c v in
    let (valid, same) = write-IsValid s (put_char t c) a.valid in
    (valid, λ q h. same q h ∙ below a q h)
  where
    below : Advanced t c (put_char t c) → (q : ℕ) → 1920 ≤ q → (put_char t c).buffer q ≡ t.buffer q
    below a q h = ground (arith, a.cells q, v.row_in, v.column_in)

-- `backspace` after a character that did not end its row puts the cursor back, and leaves a blank
-- in the cell and every other cell as it was.
pub backspace-put_char :
    (t : Terminal) (c : ℕ)
    → t.column + 1 < 80
    → (c == 10) ≡ false
    → let t' = backspace (put_char t c) in
      (position t' ≡ position t)
      × ((q : ℕ) → t'.buffer q ≡ (if position t == q then vga_entry 32 t.color else t.buffer q))
unfolding backspace update_hardware_cursor put_char
backspace-put_char t c h e = (ground (arith, e, h), λ q. ground (arith, e, h))
