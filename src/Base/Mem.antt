-- ===== src/Base/Mem.antt =====
-- Byte-addressed memory: what stands at each address. Objects do not reach the end of the address
-- space, so that a pointer plus an offset inside an object does not wrap.
use weng_shi_os.Base.{ℕ, ◌+◌, ◌≤◌, ◌≡◌, ◌≢◌, ◌⊎◌, List, [], ◌∷◌, ◌==◌, if◌then◌else◌}

abbrev pub Mem : Type 0
Mem = ℕ → ℕ

abbrev pub poke : Mem → ℕ → ℕ → Mem
poke m p v = λ q. if p == q then v else m q

-- The bytes `s`, none of them NUL, stand at `p` with a NUL behind them.
abbrev pub IsText : Mem → ℕ → List ℕ → Type 0
IsText m p [] = m p ≡ 0
IsText m p (c ∷ s) = (m p ≡ c) × (c ≢ 0) × IsText m (p + 1) s

-- Two ranges of bytes have none in common.
abbrev pub Apart : ℕ → ℕ → ℕ → ℕ → Type 0
Apart p n q k = (p + n ≤ q) ⊎ (q + k ≤ p)
