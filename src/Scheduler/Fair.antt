-- ===== src/Scheduler/Fair.antt =====
-- Nobody starves under the round robin of src/shed/scheduler.cpp.
use weng_shi_os.Base.{
  ℕ, zero, suc, ◌+◌, ◌-◌, ◌≤◌, ◌<◌, ◌≡◌, refl, true, length, Option, none, some, arith, ◌∙◌, subst,
  dec_lt, ℕ_discrete,
}
use weng_shi_os.Scheduler.Task.{ready, running, Sched, task_at, is_ready}
use weng_shi_os.Scheduler.Switch.{tick}
use weng_shi_os.Scheduler.Ring.{around}
use weng_shi_os.Scheduler.Valid.{IsValid}
use weng_shi_os.Scheduler.Tick.{Ticked, tick-Ticked, in_range}

-- A run of timer ticks; `regs` tells where each finds the registers of the interrupted task.
pub run_ticks : ℕ → (ℕ → ℕ) → Sched → Option Sched
run_ticks zero regs s = some s
run_ticks (suc m) regs s = elim (tick s (regs 0)) [
  | none ↦ none
  | some s' ↦ run_ticks m (λ i. regs (suc i)) s'
]

run_ticks-suc :
    (m : ℕ) (regs : ℕ → ℕ) (s s' : Sched)
    → tick s (regs 0) ≡ some s'
    → run_ticks (suc m) regs s ≡ run_ticks m (λ i. regs (suc i)) s'
unfolding run_ticks
run_ticks-suc m regs s s' e = rw (e, run_ticks)

-- Task `k` becomes current, and Running, within `bound` ticks.
abbrev pub RunsWithin : ℕ → (ℕ → ℕ) → Sched → ℕ → Type 0
RunsWithin bound regs s k =
    (m : ℕ) × (m ≤ bound)
    × (s' : Sched) × (run_ticks m regs s ≡ some s')
    × (s'.current ≡ some k)
    × ((task_at s'.tasks k).state ≡ running)

module _ {s : Sched} {c : ℕ} {regs : ℕ} {s' : Sched} (t : Ticked s c regs s') (d : ℕ)
    (hd : d < length s.tasks) where
  -- A tick does not pass a Ready task.
  not_passed :
      is_ready (task_at s.tasks (around (length s.tasks) c (suc d))).state ≡ true → t.steps ≤ d
  not_passed r = elim (dec_lt d t.steps) [
    | yes h ↦ absurd (ground (arith, t.passed d h, r))
    | no h ↦ omega arith
  ]

  nearer :
      c < length s.tasks
      → t.steps < d
      → around (length s.tasks) (around (length s.tasks) c (suc t.steps)) (suc (d - t.steps - 1))
        ≡ around (length s.tasks) c (suc d)
  nearer hc h = ground arith

  still_ready :
      c < length s.tasks
      → t.steps < d
      → is_ready (task_at s.tasks (around (length s.tasks) c (suc d))).state ≡ true
      → is_ready (task_at s'.tasks (around (length s.tasks) c (suc d))).state ≡ true
  still_ready hc h r = ground (arith, t.states (around (length s.tasks) c (suc d)), t.bound)

RunsWithin-suc :
    (a b : ℕ) (regs : ℕ → ℕ) (s s' : Sched) (k : ℕ)
    → tick s (regs 0) ≡ some s'
    → RunsWithin a (λ i. regs (suc i)) s' k
    → a < b
    → RunsWithin b regs s k
RunsWithin-suc a b regs s s' k e (m, le, u, run, cur, st) h =
    (suc m, omega arith, u, run_ticks-suc m regs s s' e ∙ run, cur, st)

RunsWithin-mono :
    (a b : ℕ) (regs : ℕ → ℕ) (s : Sched) (k : ℕ)
    → a ≤ b
    → RunsWithin a regs s k
    → RunsWithin b regs s k
RunsWithin-mono a b regs s k h (m, le, u, run, cur, st) = (m, omega arith, u, run, cur, st)

runs_soon :
    (b d : ℕ) (s : Sched) (c : ℕ) (regs : ℕ → ℕ)
    → d < b
    → IsValid s
    → s.started ≡ true
    → s.current ≡ some c
    → d < length s.tasks
    → is_ready (task_at s.tasks (around (length s.tasks) c (suc d))).state ≡ true
    → RunsWithin (suc d) regs s (around (length s.tasks) c (suc d))
runs_soon zero d s c regs hb v on cur hd r = absurd (omega arith)
runs_soon (suc b) d s c regs hb v on cur hd r =
    let (s', e, t) = tick-Ticked s c (regs 0) v on cur in
    elim (ℕ_discrete t.steps d) [
      | yes same ↦ (
        1,
        omega arith,
        s',
        run_ticks-suc 0 regs s s' e ∙ unfold run_ticks in refl,
        rw (← same) t.goes_to,
        ground (arith, t.states (around (length s.tasks) c (suc d)), same),
      )
      | no ne ↦
          let sooner : t.steps < d = omega (arith, not_passed t d hd r) in
          let hc : c < length s.tasks = in_range s c v cur in
          let there : around (length s'.tasks) (around (length s.tasks) c (suc t.steps))
                (suc (d - t.steps - 1))
              ≡ around (length s.tasks) c (suc d) =
            ground (arith, t.size, nearer t d hd hc sooner) in
          RunsWithin-suc (suc (d - t.steps - 1)) (suc d) regs s s' _ e
            (subst (RunsWithin (suc (d - t.steps - 1)) (λ i. regs (suc i)) s') there (
              runs_soon b (d - t.steps - 1) s' (around (length s.tasks) c (suc t.steps))
                (λ i. regs (suc i)) (omega arith) t.valid (t.on ∙ on) t.goes_to
                (omega (arith, t.size)) (rw there (still_ready t d hd hc sooner r))))
            (omega arith)
    ]

-- A Ready task becomes the current one, Running, after at most as many timer ticks as there are
-- tasks, whatever the other tasks are, if nothing but the timer acts in between.
pub ready_task_runs :
    (s : Sched) (c k : ℕ) (regs : ℕ → ℕ)
    → IsValid s
    → s.started ≡ true
    → s.current ≡ some c
    → k < length s.tasks
    → (task_at s.tasks k).state ≡ ready
    → RunsWithin (length s.tasks) regs s k
ready_task_runs s c k regs v on cur hk r = elim (dec_lt c k) [
  | yes before ↦ at_distance (k - c - 1) (omega arith) (ground arith)
  | no behind ↦
      at_distance (k + length s.tasks - c - 1) (omega (arith, in_range s c v cur))
        (ground (arith, in_range s c v cur))
]
  where
    at_distance :
        (d : ℕ)
        → d < length s.tasks
        → around (length s.tasks) c (suc d) ≡ k
        → RunsWithin (length s.tasks) regs s k
    at_distance d h there = RunsWithin-mono (suc d) (length s.tasks) regs s k h (
        subst (RunsWithin (suc d) regs s) there
          (runs_soon (suc d) d s c regs (omega arith) v on cur h (rw (there, r))))
