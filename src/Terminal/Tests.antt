-- ===== src/Terminal/Tests.antt =====
-- The laws of src/drivers/vga/terminal.cpp at concrete screens and numbers.
use weng_shi_os.Base.{ℕ, ◌^◌, ◌<◌, ◌≤◌, ◌≡◌, true, List, [], ◌∷◌, length, some, arith}
use weng_shi_os.Base.Int.{pos}
use weng_shi_os.Libc.Numbers.{atoll, hex_to_u64}
use weng_shi_os.Terminal.{Terminal, put_char, write, write_dec, write_hex, hex_text}
use weng_shi_os.Terminal.Advance.{IsValid, Advanced, put_char-Advanced, write-IsValid}
use weng_shi_os.Terminal.Digits.{write_dec-atoll, write_hex-hex_to_u64}

-- The cursor in the last cell of the screen, and near the start of its first row.
abbrev at_end : Terminal
at_end = record { buffer = λ q. q; row = 23; column = 79; color = 15; hardware_cursor = 0 }

abbrev at_start : Terminal
at_start = record { buffer = λ q. q; row = 0; column = 3; color = 15; hardware_cursor = 0 }

at_end-IsValid : IsValid at_end
at_end-IsValid = record { row_in = omega arith; column_in = omega arith }

put_char-Advanced_example : Advanced at_end 65 (put_char at_end 65)
put_char-Advanced_example = put_char-Advanced at_end 65 at_end-IsValid

write-IsValid_example :
    IsValid (write at_end (65 ∷ 10 ∷ 66 ∷ []))
    × ((q : ℕ) → 1920 ≤ q → (write at_end (65 ∷ 10 ∷ 66 ∷ [])).buffer q ≡ q)
write-IsValid_example = write-IsValid (65 ∷ 10 ∷ 66 ∷ []) at_end at_end-IsValid

write_dec-atoll_example :
    (ds : List ℕ) × (write_dec at_start 4096 ≡ some (write at_start ds))
    × (length ds ≤ 20)
    × (4096 < 2 ^ 63 → atoll ds ≡ some (pos 4096))
write_dec-atoll_example = write_dec-atoll at_start 4096 (omega arith)

write_hex-hex_to_u64_example :
    (write_hex at_start 4096 ≡ write at_start (48 ∷ 120 ∷ hex_text 16 true 4096))
    × (hex_to_u64 (some (48 ∷ 120 ∷ hex_text 16 true 4096)) true ≡ some 4096)
write_hex-hex_to_u64_example = write_hex-hex_to_u64 at_start 4096 (omega arith)
