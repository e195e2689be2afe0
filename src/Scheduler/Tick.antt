-- ===== src/Scheduler/Tick.antt =====
-- The timer tick of src/shed/scheduler.cpp: which task it switches to, and the states it leaves.
use weng_shi_os.Base.{
  ℕ, suc, ◌-◌, ◌<◌, ◌≡◌, ◌≢◌, refl, true, false, ◌==◌, List, [], length, Option, some,
  if◌then◌else◌, arith, ◌∙◌, ◌⊎◌, inl, inr, ℕ_discrete,
}
use weng_shi_os.Scheduler.Task.{Task, running, Sched, task_at, is_ready, set_state}
use weng_shi_os.Scheduler.Switch.{
  resume_same, resume_other, reap_terminated, save_current, switch_to, tick_current, tick,
}
use weng_shi_os.Scheduler.Ring.{IsRing, around, Searched, found, nothing}
use weng_shi_os.Scheduler.Valid.{IsValid, find_next_ready-Searched}
use weng_shi_os.Scheduler.Saved.{
  Saved, Switched, reap_loop-Reaped, reap_loop_rest, save_current-Saved, Reaped-Saved, IsRing-same,
  run-Switched, Switched-IsValid, state_after,
}

-- What a tick does at current task `c`: it goes to the first task behind `c` in the ring that is
-- Ready, `c` itself last, which is Ready for this purpose if it was Running; or, if there is none,
-- it stays with `c`. The task that runs next is Running and current, a task that ran before is
-- Ready, and no other task changes its state. It resumes at its own saved stack, which for `c` is
-- the frame of this tick.
pub record Ticked (s : Sched) (c regs : ℕ) (s' : Sched) : Type 0 where
  pub steps : ℕ
  pub bound : steps < length s.tasks
  pub passed :
      (k : ℕ)
      → k < steps
      → is_ready (task_at s.tasks (around (length s.tasks) c (suc k))).state ≡ false
  pub picked :
      (is_ready (task_at s.tasks (around (length s.tasks) c (suc steps))).state ≡ true)
      ⊎ (suc steps ≡ length s.tasks)
  pub goes_to : s'.current ≡ some (around (length s.tasks) c (suc steps))
  pub size : length s'.tasks ≡ length s.tasks
  pub states :
      (i : ℕ)
      → (task_at s'.tasks i).state ≡ state_after s.tasks c (around (length s.tasks) c (suc steps)) i
  pub resumes : s'.next_task_rsp ≡ (
      if c == around (length s.tasks) c (suc steps)
      then regs
      else (task_at s.tasks (around (length s.tasks) c (suc steps))).rsp)
  pub valid : IsValid s'
  pub on : s'.started ≡ s.started

pub in_range : (s : Sched) (c : ℕ) → IsValid s → s.current ≡ some c → c < length s.tasks
in_range s c v e = rw e at v.current_in

module _ (s : Sched) (c regs : ℕ) (v : IsValid s) (cur : s.current ≡ some c) where
  saved_tasks : List Task
  saved_tasks = save_current (reap_terminated s).tasks c regs

  Saved-Saved : Saved s.tasks saved_tasks c regs
  unfolding saved_tasks reap_terminated
  Saved-Saved =
      let reaped = reap_loop-Reaped s.pending_cleanup s v.pending_in in
      Reaped-Saved reaped
        (save_current-Saved _ c regs (omega (arith, reaped.size, in_range s c v cur)))

  saved : Sched
  saved = record (reap_terminated s) { tasks = saved_tasks }

  -- Any way to leave `tick` for task `d`, `steps` behind `c`.
  leave-Ticked :
      (s' : Sched) (d steps : ℕ)
      → d ≡ around (length s.tasks) c (suc steps)
      → steps < length s.tasks
      → ((k : ℕ)
          → k < steps
          → is_ready (task_at s.tasks (around (length s.tasks) c (suc k))).state ≡ false)
      → (is_ready (task_at s.tasks d).state ≡ true) ⊎ (suc steps ≡ length s.tasks)
      → s'.current ≡ some d
      → s'.tasks ≡ set_state saved_tasks d running
      → s'.next_task_rsp ≡ (task_at saved_tasks d).rsp
      → s'.tail ≡ s.tail
      → s'.started ≡ s.started
      → s'.pending_cleanup ≡ []
      → Ticked s c regs s'
  leave-Ticked s' d steps e bound passed picked current tasks rsp tail on pending = record {
    steps = steps;
    bound = bound;
    passed = passed;
    picked = rw (← e) picked;
    goes_to = rw (← e) current;
    size = rw tasks w.size;
    states = λ i. rw (← e, tasks) (w.states i);
    resumes = rw (← e) (rsp ∙ Saved-Saved.saved d);
    valid = Switched-IsValid s s' c d v cur here (rw tasks w) current tail pending;
    on = on;
  }
    where
      here : d < length s.tasks
      here = ground (arith, e, in_range s c v cur)

      w : Switched s.tasks (set_state saved_tasks d running) c d
      w = run-Switched s.tasks saved_tasks c regs d here Saved-Saved

  turn :
      (k : ℕ)
      → k < length s.tasks
      → around (length saved_tasks) (around (length saved_tasks) c 1) k
        ≡ around (length s.tasks) c (suc k)
  turn k h = rw Saved-Saved.size (ground (arith, in_range s c v cur))

  was_not_ready :
      (i : ℕ)
      → is_ready (task_at saved_tasks i).state ≡ false
      → is_ready (task_at s.tasks i).state ≡ false
  was_not_ready i h = ground (arith, Saved-Saved.states i)

  was_ready :
      (i : ℕ)
      → c ≢ i
      → is_ready (task_at saved_tasks i).state ≡ true
      → is_ready (task_at s.tasks i).state ≡ true
  was_ready i ne h = ground (arith, Saved-Saved.states i)

  rest :
      ((reap_terminated s).current ≡ s.current)
      × ((reap_terminated s).tail ≡ s.tail)
      × ((reap_terminated s).started ≡ s.started)
  unfolding reap_terminated
  rest = reap_loop_rest s.pending_cleanup s

  none_pending : (reap_terminated s).pending_cleanup ≡ []
  unfolding reap_terminated
  none_pending = refl

  switch_to-Ticked :
      (r : Option (Option ℕ))
      → Searched (λ t. is_ready t.state) saved_tasks (around (length saved_tasks) c 1) r
      → (s' : Sched) × (switch_to saved c r ≡ some s') × Ticked s c regs s'
  unfolding switch_to saved
  switch_to-Ticked r (found j h before chosen e) = (
    resume_other saved d,
    rw (e, switch_to),
    leave-Ticked (resume_other saved d) d j (turn j bound) bound passed picked refl refl refl rest.1
        rest.2 none_pending,
  )
    where
      d : ℕ
      d = around (length saved_tasks) (around (length saved_tasks) c 1) j

      bound : j < length s.tasks
      bound = omega (arith, Saved-Saved.size)

      passed :
          (k : ℕ)
          → k < j
          → is_ready (task_at s.tasks (around (length s.tasks) c (suc k))).state ≡ false
      passed k l = was_not_ready _ (rw (← turn k (omega (arith, bound))) (before k l))

      picked : (is_ready (task_at s.tasks d).state ≡ true) ⊎ (suc j ≡ length s.tasks)
      picked = elim (ℕ_discrete (suc j) (length s.tasks)) [
        | yes last ↦ inr last
        | no more ↦ inl (was_ready d (ground (arith, turn j bound, in_range s c v cur)) chosen)
      ]
  switch_to-Ticked r (nothing all e) = (
    resume_same saved c,
    rw (e, switch_to),
    leave-Ticked (resume_same saved c) c (length s.tasks - 1) (ground (arith, at_c))
        (omega (arith, at_c))
        (λ k l.
          was_not_ready _
            (rw (← turn k (omega (arith, at_c))) (all k (omega (arith, Saved-Saved.size, at_c)))))
        (inr (omega (arith, at_c))) (rest.0 ∙ cur) refl refl rest.1 rest.2 none_pending,
  )
    where
      at_c : c < length s.tasks
      at_c = in_range s c v cur

tick-current :
    (s : Sched) (c regs : ℕ)
    → s.started ≡ true
    → s.current ≡ some c
    → tick s regs ≡ tick_current s c regs
unfolding tick
tick-current s c regs on cur = ground arith

-- On a valid state with a current task, a tick of a started scheduler does not fail, and does what
-- `Ticked` says.
pub tick-Ticked :
    (s : Sched) (c regs : ℕ)
    → IsValid s
    → s.started ≡ true
    → s.current ≡ some c
    → (s' : Sched) × (tick s regs ≡ some s') × Ticked s c regs s'
unfolding tick_current saved saved_tasks
tick-Ticked s c regs v on cur =
    let ring : IsRing (saved_tasks s c regs v cur) =
      IsRing-same s.tasks _ (Saved-Saved s c regs v cur).size (Saved-Saved s c regs v cur).same
        v.ring in
    let (s', e, t) = switch_to-Ticked s c regs v cur _ (
      find_next_ready-Searched _ c ring
        (omega (arith, (Saved-Saved s c regs v cur).size, in_range s c v cur))) in
    (s', tick-current s c regs on cur ∙ e, t)
