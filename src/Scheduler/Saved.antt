-- ===== src/Scheduler/Saved.antt =====
-- The parts of a timer tick in src/shed/scheduler.cpp: reaping, saving, making a task Running.
use weng_shi_os.Base.{
  ℕ, ◌<◌, ◌≡◌, refl, ◌==◌, ◌&&◌, List, [], ◌∷◌, length, length-set, some, if◌then◌else◌, arith, ◌∙◌,
  sym, subst,
}
use weng_shi_os.Scheduler.Task.{
  Task, TaskState, ready, running, Sched, task_at, is_running, set_state, with_state,
}
use weng_shi_os.Scheduler.Switch.{clear_stack, reap_loop, save_current}
use weng_shi_os.Scheduler.Ring.{IsRing, task_at-set}
use weng_shi_os.Scheduler.Valid.{IsValid, last_place, AllBelow}

-- `us` is `ts` with some stacks given back, and nothing else changed.
pub record Reaped (ts us : List Task) : Type 0 where
  pub size : length us ≡ length ts
  pub same : (i : ℕ) → (task_at us i).next ≡ (task_at ts i).next
  pub states : (i : ℕ) → (task_at us i).state ≡ (task_at ts i).state
  pub saved : (i : ℕ) → (task_at us i).rsp ≡ (task_at ts i).rsp

pub clear_stack-Reaped : (ts : List Task) (j : ℕ) → j < length ts → Reaped ts (clear_stack ts j)
clear_stack-Reaped ts j h = record {
  size = length-set ts j (record (task_at ts j) { stack_base = 0 });
  same = λ i. ground (arith, task_at-set ts j i (record (task_at ts j) { stack_base = 0 }) h);
  states = λ i. ground (arith, task_at-set ts j i (record (task_at ts j) { stack_base = 0 }) h);
  saved = λ i. ground (arith, task_at-set ts j i (record (task_at ts j) { stack_base = 0 }) h);
}

pub Reaped-trans : {ts us vs : List Task} → Reaped ts us → Reaped us vs → Reaped ts vs
Reaped-trans a b = record {
  size = b.size ∙ a.size;
  same = λ i. b.same i ∙ a.same i;
  states = λ i. b.states i ∙ a.states i;
  saved = λ i. b.saved i ∙ a.saved i;
}

pub reap_loop-Reaped :
    (is : List ℕ) (s : Sched) → AllBelow (length s.tasks) is → Reaped s.tasks (reap_loop is s).tasks
unfolding reap_loop
reap_loop-Reaped [] s b = record {
  size = refl;
  same = λ i. refl;
  states = λ i. refl;
  saved = λ i. refl;
}
reap_loop-Reaped (j ∷ is) s b =
    let first = clear_stack-Reaped s.tasks j b.0 in
    Reaped-trans first
      (reap_loop-Reaped is _ (subst (λ (n : ℕ). AllBelow n is) (sym first.size) b.1))

pub reap_loop_rest :
    (is : List ℕ) (s : Sched)
    → ((reap_loop is s).current ≡ s.current)
      × ((reap_loop is s).tail ≡ s.tail)
      × ((reap_loop is s).started ≡ s.started)
unfolding reap_loop
reap_loop_rest [] s = (refl, refl, refl)
reap_loop_rest (j ∷ is) s = reap_loop_rest is _

pub last_place_size : (ts us : List Task) → length ts ≡ length us → last_place ts ≡ last_place us
last_place_size [] [] h = refl
last_place_size [] (u ∷ us) h = absurd (omega arith)
last_place_size (t ∷ ts) [] h = absurd (omega arith)
last_place_size (t ∷ ts) (u ∷ us) h = ground arith

-- The state in which `tick` leaves task `i`, when it goes from `c` to `next`.
abbrev pub state_after : List Task → ℕ → ℕ → ℕ → TaskState
state_after ts c next i =
    if next == i
    then running
    else if c == i && is_running (task_at ts i).state
    then ready
    else (task_at ts i).state

-- `us` is `ts` with the registers of task `c` saved.
pub record Saved (ts us : List Task) (c regs : ℕ) : Type 0 where
  pub size : length us ≡ length ts
  pub same : (i : ℕ) → (task_at us i).next ≡ (task_at ts i).next
  pub states :
      (i : ℕ)
      → (task_at us i).state
        ≡ (if c == i && is_running (task_at ts i).state then ready else (task_at ts i).state)
  pub saved : (i : ℕ) → (task_at us i).rsp ≡ (if c == i then regs else (task_at ts i).rsp)

pub save_current-Saved :
    (ts : List Task) (c regs : ℕ) → c < length ts → Saved ts (save_current ts c regs) c regs
unfolding save_current
save_current-Saved ts c regs h = record {
  size = length-set ts c _;
  same = λ i. ground (arith, task_at-set ts c i kept h);
  states = λ i. ground (arith, task_at-set ts c i kept h);
  saved = λ i. ground (arith, task_at-set ts c i kept h);
}
  where
    kept : Task
    kept = record (task_at ts c) {
      rsp = regs;
      state = if is_running (task_at ts c).state then ready else (task_at ts c).state;
    }

pub Reaped-Saved :
    {ts us vs : List Task} {c regs : ℕ} → Reaped ts us → Saved us vs c regs → Saved ts vs c regs
Reaped-Saved a b = record {
  size = b.size ∙ a.size;
  same = λ i. b.same i ∙ a.same i;
  states = λ i. ground (arith, b.states i, a.states i);
  saved = λ i. ground (arith, b.saved i, a.saved i);
}

pub IsRing-same :
    (ts us : List Task)
    → length us ≡ length ts
    → ((i : ℕ) → (task_at us i).next ≡ (task_at ts i).next)
    → IsRing ts
    → IsRing us
IsRing-same ts us e same ring i h = ground (arith, same i, ring i)

-- Making task `d` Running, once the registers of the current one are saved.
pub record Switched (ts vs : List Task) (c d : ℕ) : Type 0 where
  pub size : length vs ≡ length ts
  pub same : (i : ℕ) → (task_at vs i).next ≡ (task_at ts i).next
  pub states : (i : ℕ) → (task_at vs i).state ≡ state_after ts c d i

pub run-Switched :
    (ts us : List Task) (c regs d : ℕ)
    → d < length ts
    → Saved ts us c regs
    → Switched ts (set_state us d running) c d
run-Switched ts us c regs d h v = record {
  size = length-set us d (with_state (task_at us d) running) ∙ v.size;
  same =
      λ i. ground (arith, task_at-set us d i (with_state (task_at us d) running), v.same i, v.size);
  states = λ i.
      ground (arith, task_at-set us d i (with_state (task_at us d) running), v.states i, v.size);
}

-- The invariant after a switch.
pub Switched-IsValid :
    (s s' : Sched) (c d : ℕ)
    → IsValid s
    → s.current ≡ some c
    → d < length s.tasks
    → Switched s.tasks s'.tasks c d
    → s'.current ≡ some d
    → s'.tail ≡ s.tail
    → s'.pending_cleanup ≡ []
    → IsValid s'
Switched-IsValid s s' c d v e h w current tail pending = record {
  ring = IsRing-same s.tasks s'.tasks w.size w.same v.ring;
  tail_last = tail ∙ v.tail_last ∙ last_place_size s.tasks s'.tasks (sym w.size);
  current_in = rw current (omega (arith, w.size));
  one_runs = λ i r. ground (arith, current, r, w.states i, v.one_runs i, e);
  few_pending = rw pending (omega arith);
  pending_in = rw pending tt;
}
