-- ===== src/Printf/Tests.antt =====
-- Tests of the model of src/libc/printf.cpp.
use weng_shi_os.Base.{ℕ, ◌≤◌, ◌≡◌, List, length, some, arith}
use weng_shi_os.Terminal.{Terminal, write}
use weng_shi_os.Printf.{print_radix}
use weng_shi_os.Printf.Radix.{read_radix, AreDigits, print_radix-read_radix}
use weng_shi_os.Printf.Typed.{Typed}

abbrev home : Terminal
home = record { buffer = λ q. 0; row = 0; column = 0; color = 15; hardware_cursor = 0 }

print_radix-read_radix_example :
    ((ds : List ℕ) × (print_radix 2 64 home 10 ≡ some (write home ds))
      × (length ds ≤ 64)
      × (read_radix 2 0 ds ≡ 10)
      × AreDigits 2 ds)
    × ((ds : List ℕ) × (print_radix 8 22 home 10 ≡ some (write home ds))
        × (length ds ≤ 22)
        × (read_radix 8 0 ds ≡ 10)
        × AreDigits 8 ds)
print_radix-read_radix_example = print_radix-read_radix home 10 (omega arith)
