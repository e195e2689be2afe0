-- ===== src/Terminal.antt =====
-- src/drivers/vga/terminal.cpp: the text screen with its cursor.
pub mod Scroll
pub mod Advance
pub mod Digits
mod Tests
use Prim.Native.Nat.{bit_and, bit_or}
use weng_shi_os.Base.{
  ℕ, zero, suc, ◌+◌, ◌-◌, ◌*◌, ◌/◌, ◌%◌, ◌^◌, Bool, true, false, ◌==◌, ◌||◌, ◌&&◌, not, ltb, List,
  [], ◌∷◌, get_or, Option, none, some, if◌then◌else◌,
}
use weng_shi_os.Base.Mem.{Mem, poke}

-- `buffer` is the video memory, by 16-bit cells; `hardware_cursor` is what the last write to the
-- two cursor registers left in them.
pub record Terminal : Type 0 where
  pub buffer : Mem
  pub row : ℕ
  pub column : ℕ
  pub color : ℕ
  pub hardware_cursor : ℕ

abbrev pub vga_width : ℕ
vga_width = 80

abbrev pub vga_height : ℕ
vga_height = 24

abbrev pub vga_entry : ℕ → ℕ → ℕ
vga_entry c color = bit_or (c % 2 ^ 8) (color * 2 ^ 8)

unfoldable pub set_color : Terminal → ℕ → ℕ → Terminal
set_color t fg bg = record t { color = bit_or fg (bg * 2 ^ 4) % 2 ^ 8 }

-- The two calls act on `g_terminal`, which is the only terminal.
unfoldable pub set_color_foreground : Terminal → ℕ → Terminal
unfolding set_color
set_color_foreground t fg = set_color t fg (bit_and t.color 0xF0 / 2 ^ 4)

unfoldable pub set_color_background : Terminal → ℕ → Terminal
unfolding set_color
set_color_background t bg = set_color t (bit_and t.color 0x0F) bg

-- The two bytes of the position, low and high, are the position.
unfoldable pub update_hardware_cursor : Terminal → Terminal
update_hardware_cursor t =
    let position = (t.row * vga_width + t.column) % 2 ^ 16 in
    record t { hardware_cursor = bit_and position 0xFF + bit_and (position / 2 ^ 8) 0xFF * 2 ^ 8 }

-- The loops over the cells of a row and over rows, with the rounds left.
unfoldable pub blank_cells : ℕ → ℕ → ℕ → ℕ → Mem → Mem
blank_cells zero y x color b = b
blank_cells (suc n) y x color b =
    blank_cells n y (x + 1) color (poke b (y * vga_width + x) (vga_entry 32 color))

unfoldable pub blank_rows : ℕ → ℕ → ℕ → Mem → Mem
blank_rows zero y color b = b
blank_rows (suc n) y color b = blank_rows n (y + 1) color (blank_cells vga_width y 0 color b)

unfoldable pub clear : Terminal → Terminal
clear t =
    update_hardware_cursor
      (record t { buffer = blank_rows vga_height 0 t.color t.buffer; row = 0; column = 0 })

unfoldable pub clear_all : Terminal → Terminal
clear_all t =
    update_hardware_cursor
      (record t { buffer = blank_rows (vga_height + 1) 0 t.color t.buffer; row = 0; column = 0 })

unfoldable pub copy_cells : ℕ → ℕ → ℕ → Mem → Mem
copy_cells zero y x b = b
copy_cells (suc n) y x b =
    copy_cells n y (x + 1) (poke b ((y - 1) * vga_width + x) (b (y * vga_width + x)))

unfoldable pub copy_rows : ℕ → ℕ → Mem → Mem
copy_rows zero y b = b
copy_rows (suc n) y b = copy_rows n (y + 1) (copy_cells vga_width y 0 b)

unfoldable pub scroll : Terminal → Terminal
scroll t = record t {
  buffer = blank_cells vga_width (vga_height - 1) 0 t.color (copy_rows (vga_height - 1) 1 t.buffer);
}

unfoldable pub newline : Terminal → Terminal
newline t =
    let t' = record t { column = 0 } in
    if t'.row == vga_height - 1 then scroll t' else record t' { row = (t'.row + 1) % 2 ^ 16 }

unfoldable pub put_char_at : Terminal → ℕ → ℕ → ℕ → Terminal
put_char_at t c x y = record t { buffer = poke t.buffer (y * vga_width + x) (vga_entry c t.color) }

unfoldable pub put_char : Terminal → ℕ → Terminal
put_char t c =
    if c == 10
    then newline t
    else let t' = record t {
      buffer = poke t.buffer (t.row * vga_width + t.column) (vga_entry c t.color);
      column = (t.column + 1) % 2 ^ 16;
    } in
      update_hardware_cursor (if t'.column == vga_width then newline t' else t')

unfoldable pub set_cursor : Terminal → ℕ → ℕ → Terminal
unfolding update_hardware_cursor
set_cursor t row col = update_hardware_cursor (record t { row = row; column = col })

-- The text is the bytes before the NUL.
unfoldable pub write : Terminal → List ℕ → Terminal
write t [] = t
write t (c ∷ s) = write (put_char t c) s

unfoldable pub write_at : Terminal → List ℕ → ℕ → ℕ → Terminal
write_at t [] x y = t
write_at t (c ∷ s) x y = write_at (put_char_at t c x y) s (x + 1) y

unfoldable pub backspace : Terminal → Terminal
unfolding update_hardware_cursor
backspace t =
    let erase : Terminal → Terminal = λ t'. update_hardware_cursor (record t' {
      buffer = poke t'.buffer (t'.row * vga_width + t'.column) (vga_entry 32 t'.color);
    }) in
    if ltb 0 t.column
    then erase (record t { column = t.column - 1 })
    else if ltb 0 t.row
    then erase (record t { row = t.row - 1; column = vga_width - 1 })
    else t

-- The characters of `writeHex` behind "0x", with the rounds left: the shift is four times one less.
unfoldable pub hex_digits : List ℕ
hex_digits = 48 ∷ 49 ∷ 50 ∷ 51 ∷ 52 ∷ 53 ∷ 54 ∷ 55 ∷ 56 ∷ 57 ∷ 65 ∷ 66 ∷ 67 ∷ 68 ∷ 69 ∷ 70 ∷ []

unfoldable pub hex_text : ℕ → Bool → ℕ → List ℕ
unfolding hex_digits
hex_text zero leading value = []
hex_text (suc n) leading value =
    let nibble = value / 16 ^ n % 16 in
    let leading' = leading && (nibble == 0) in
    let rest = hex_text n leading' value in
    if not leading' || (n == 0) then get_or hex_digits nibble 0 ∷ rest else rest

unfoldable pub write_hex : Terminal → ℕ → Terminal
write_hex t value = write (write t (48 ∷ 120 ∷ [])) (hex_text 16 true value)

-- The digits of `writeDec` as a stack, the last one written on top; the fuel is the room that the
-- array has left, and `none` a write past its end.
unfoldable pub push_digits : ℕ → ℕ → List ℕ → Option (List ℕ)
push_digits room zero stack = some stack
push_digits zero (suc v) stack = none
push_digits (suc room) (suc v) stack = push_digits room (suc v / 10) ((48 + suc v % 10) ∷ stack)

unfoldable pub write_dec : Terminal → ℕ → Option Terminal
write_dec t value =
    if value == 0
    then some (put_char t 48)
    else elim (push_digits 20 value []) [ none ↦ none | some digits ↦ some (write t digits) ]

unfoldable pub write_dec_at : Terminal → ℕ → ℕ → ℕ → Option Terminal
write_dec_at t value x y =
    if value == 0
    then some (put_char_at t 48 x y)
    else elim (push_digits 20 value []) [ none ↦ none | some digits ↦ some (write_at t digits x y) ]
