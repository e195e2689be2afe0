-- ===== src/Printf/Returns.antt =====
-- What a call of `printf` in src/libc/printf.cpp leaves on the screen.
use weng_shi_os.Base.{◌≡◌, List, Option, none, some}
use weng_shi_os.Terminal.{Terminal}
use weng_shi_os.Terminal.Advance.{IsValid}
use weng_shi_os.Printf.{Arg}
use weng_shi_os.Printf.Typed.{Typed}

-- A call returns, and leaves the cursor on the screen.
abbrev pub Printed : Option Terminal → Type 0
Printed none = ⊥
Printed (some t) = IsValid t

-- What a directive leaves: a valid screen, and the other arguments.
abbrev Directed : List Arg → Option (Terminal × List Arg) → Type 0
Directed rest none = ⊥
Directed rest (some (t, args)) = IsValid t × (args ≡ rest)
