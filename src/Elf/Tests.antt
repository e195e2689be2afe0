-- ===== src/Elf/Tests.antt =====
-- The laws of the ELF loader at concrete inputs.
use weng_shi_os.Base.{ℕ, List, [], ◌∷◌, arith}
use weng_shi_os.Base.Mem.{Mem}
use weng_shi_os.Elf.{setup_args}
use weng_shi_os.Elf.Args.{IsLaid, setup_args-IsLaid}

abbrev no_bytes : Mem
no_bytes = λ q. 0

-- "ls" and "/".
abbrev two_args : List (List ℕ)
two_args = (108 ∷ 115 ∷ []) ∷ (47 ∷ []) ∷ []

setup_args-IsLaid_example : IsLaid no_bytes 8192 two_args (setup_args no_bytes 8192 two_args)
setup_args-IsLaid_example = setup_args-IsLaid no_bytes 8192 two_args (omega arith) (omega arith)
