-- ===== src/Scheduler/Tests.antt =====
-- The laws of src/shed/scheduler.cpp at a ring of three tasks.
use weng_shi_os.Base.{ℕ, zero, suc, ◌≡◌, refl, true, List, [], ◌∷◌, some, arith}
use weng_shi_os.Base.Int.{pos}
use weng_shi_os.Scheduler.Task.{Task, ready, running, blocked, Sched, task_at, no_task, is_running}
use weng_shi_os.Scheduler.Create.{create_task, new_task}
use weng_shi_os.Scheduler.Switch.{tick}
use weng_shi_os.Scheduler.Ring.{IsRing}
use weng_shi_os.Scheduler.Valid.{IsValid}
use weng_shi_os.Scheduler.Born.{Born, create_task-Born}
use weng_shi_os.Scheduler.Tick.{Ticked, tick-Ticked}
use weng_shi_os.Scheduler.Fair.{RunsWithin, ready_task_runs}
use weng_shi_os.Scheduler.Kill.{KillOutcome, kill_task-Outcome}

-- Task 1 runs, task 2 waits for task 3 and is Blocked, task 3 is Ready.
abbrev three_tasks : List Task
three_tasks =
    record no_task { id = 1; state = running; next = 1 }
    ∷ record no_task { id = 2; state = blocked; next = 2 }
    ∷ record no_task { id = 3; state = ready; next = 0; waiting_parent = some 1 }
    ∷ []

abbrev three : Sched
three = record {
  tasks = three_tasks;
  current = some 0;
  tail = some 2;
  next_id = 4;
  started = true;
  pending_cleanup = [];
  next_task_rsp = 0;
  kernel_stack = 0;
  address_space = 0;
  focus = 3;
  freed = [];
  frames = [];
}

three_tasks-IsRing : IsRing three_tasks
three_tasks-IsRing zero h = refl
three_tasks-IsRing (suc zero) h = refl
three_tasks-IsRing (suc (suc zero)) h = refl
three_tasks-IsRing (suc (suc (suc i))) h = absurd (omega (arith, h))

first_runs : (i : ℕ) → is_running (task_at three_tasks i).state ≡ true → some 0 ≡ some i
first_runs zero r = refl
first_runs (suc zero) r = absurd (ground (arith, r))
first_runs (suc (suc zero)) r = absurd (ground (arith, r))
first_runs (suc (suc (suc i))) r = absurd (ground (arith, r))

three-IsValid : IsValid three
three-IsValid = record {
  ring = three_tasks-IsRing;
  tail_last = refl;
  current_in = omega arith;
  one_runs = first_runs;
  few_pending = omega arith;
  pending_in = tt;
}

create_task-Born_example :
    let (s', answer) = create_task three 4096 8192 16 32 48 64 in
    (answer ≡ some 3) × Born three s' (new_task three 32 48 64 8192)
create_task-Born_example =
    create_task-Born three 4096 8192 16 32 48 64 three-IsValid (λ e. omega (arith, e))
      (λ e. omega (arith, e)) (λ e. omega (arith, e)) (λ e. omega (arith, e))

tick-Ticked_example : (s' : Sched) × (tick three 500 ≡ some s') × Ticked three 0 500 s'
tick-Ticked_example = tick-Ticked three 0 500 three-IsValid refl refl

ready_task_runs_example : RunsWithin 3 (λ i. 500) three 2
ready_task_runs_example =
    ready_task_runs three 0 2 (λ i. 500) three-IsValid refl refl (omega arith) refl

kill_task-Outcome_example : KillOutcome three 3 (pos 7)
kill_task-Outcome_example = kill_task-Outcome three 3 (pos 7) three-IsValid
