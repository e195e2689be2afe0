-- ===== src/Timer.antt =====
-- src/arch/x86_64/timer.cpp: the tick counter and the sleeps that poll it. What the polls of the
-- counter answer, while interrupts count it up, is an argument; polls are numbered from 0.
pub mod Sleep
mod Tests
use Prim.Native.Nat.{bit_and}
use weng_shi_os.Base.{
  ℕ, zero, suc, ◌+◌, ◌*◌, ◌/◌, ◌^◌, Bool, true, false, ltb, List, [], ◌∷◌, Option, none, some,
  if◌then◌else◌,
}
use weng_shi_os.Base.Word.{add64, mul64}

pub record Timer : Type 0 where
  pub ticks : ℕ
  pub frequency_hz : ℕ

-- The divisor of the 1193182 Hz clock, and the writes to the ports. The registration of the
-- handler is left out; a frequency of 0 is undefined in C++.
unfoldable pub init : ℕ → Timer × List (ℕ × ℕ)
init frequency_hz =
    let quotient = 1193182 / frequency_hz in
    let divisor = if ltb 0xFFFF quotient then 0xFFFF else quotient in
    (
      record { ticks = 0; frequency_hz = frequency_hz },
      (0x43, 0x36) ∷ (0x40, bit_and divisor 0xFF) ∷ (0x40, bit_and (divisor / 2 ^ 8) 0xFF) ∷ [],
    )

unfoldable pub on_irq : Timer → Timer
on_irq t = record t { ticks = add64 t.ticks 1 }

-- The polling loop from poll `i` on; the answer is the poll that ended it.
unfoldable pub poll_loop : ℕ → (ℕ → ℕ) → ℕ → ℕ → Option ℕ
poll_loop zero polls i deadline = none
poll_loop (suc fuel) polls i deadline = elim (ltb deadline (polls i)) [
  | true ↦ some i
  | false ↦ poll_loop fuel polls (i + 1) deadline
]

unfoldable pub sleep_ticks : ℕ → (ℕ → ℕ) → ℕ → Option ℕ
sleep_ticks fuel polls ticks = poll_loop fuel polls 1 (add64 (polls 0) ticks)

unfoldable pub sleep_miliseconds : ℕ → (ℕ → ℕ) → ℕ → Option ℕ
sleep_miliseconds fuel polls ms = poll_loop fuel polls 1 (add64 (polls 0) ms)

unfoldable pub sleep_seconds : ℕ → (ℕ → ℕ) → ℕ → Option ℕ
sleep_seconds fuel polls s = poll_loop fuel polls 1 (add64 (polls 0) (mul64 s 1000))
