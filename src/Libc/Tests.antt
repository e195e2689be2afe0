-- ===== src/Libc/Tests.antt =====
-- The laws of src/libc/string.cpp at concrete texts.
use weng_shi_os.Base.{ℕ, ◌≡◌, refl, inl, List, [], ◌∷◌, ◌==◌, if◌then◌else◌, arith}
use weng_shi_os.Base.Mem.{Mem, IsText}
use weng_shi_os.Libc.Memory.{memcpy, memmove}
use weng_shi_os.Libc.Memory.Laws.{memcpy-eq-memmove}

-- "ab" at 10, "ac" at 20, and zeros elsewhere.
abbrev texts : Mem
texts q =
    if q == 10
    then 97
    else if q == 11
    then 98
    else if q == 20
    then 97
    else if q == 21
    then 99
    else 0

abbrev ab : List ℕ
ab = 97 ∷ 98 ∷ []

abbrev ac : List ℕ
ac = 97 ∷ 99 ∷ []

at_ab : IsText texts 10 ab
at_ab = (refl, λ e. omega (arith, e), (refl, λ e. omega (arith, e), refl))

at_ac : IsText texts 20 ac
at_ac = (refl, λ e. omega (arith, e), (refl, λ e. omega (arith, e), refl))

memcpy-eq-memmove_example : memcpy texts 9 10 2 10 ≡ memmove texts 9 10 2 10
memcpy-eq-memmove_example = memcpy-eq-memmove texts 9 10 2 (inl (omega arith)) 10
