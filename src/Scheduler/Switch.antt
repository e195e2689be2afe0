-- ===== src/Scheduler/Switch.antt =====
-- `reapTerminated` and the timer tick of src/shed/scheduler.cpp.
use weng_shi_os.Base.{ℕ, true, false, List, [], ◌∷◌, set, Option, none, some, if◌then◌else◌}
use weng_shi_os.Scheduler.Task.{ready, running, Task, Sched, task_at, is_running, set_state}
use weng_shi_os.Scheduler.Search.{find_next_ready}

-- `kfree(t->stack_base); t->stack_base = nullptr;` for each pending task.
abbrev pub clear_stack : List Task → ℕ → List Task
clear_stack ts i = set ts i (record (task_at ts i) { stack_base = 0 })

unfoldable pub reap_loop : List ℕ → Sched → Sched
reap_loop [] s = s
reap_loop (i ∷ is) s =
    reap_loop is
      (record s { tasks = clear_stack s.tasks i; freed = (task_at s.tasks i).stack_base ∷ s.freed })

unfoldable pub reap_terminated : Sched → Sched
unfolding reap_loop
reap_terminated s = record (reap_loop s.pending_cleanup s) { pending_cleanup = [] }

-- `g_current->rsp = regs;` and Running becomes Ready.
unfoldable pub save_current : List Task → ℕ → ℕ → List Task
save_current ts c regs =
    let t = task_at ts c in
    set ts c (record t { rsp = regs; state = if is_running t.state then ready else t.state })

-- The two ends of `tick`: nothing is Ready, and the switch to task `n`.
abbrev pub resume_same : Sched → ℕ → Sched
resume_same s c = record s {
  next_task_rsp = (task_at s.tasks c).rsp;
  tasks = set_state s.tasks c running;
}

abbrev pub resume_other : Sched → ℕ → Sched
resume_other s n = record s {
  current = some n;
  tasks = set_state s.tasks n running;
  next_task_rsp = (task_at s.tasks n).rsp;
  kernel_stack = (task_at s.tasks n).kernel_stack_top;
  address_space = (task_at s.tasks n).plm4_phys;
}

-- By the answer of `findNextReady`, which never runs out of fuel.
unfoldable pub switch_to : Sched → ℕ → Option (Option ℕ) → Option Sched
switch_to s c none = none
switch_to s c (some none) = some (resume_same s c)
switch_to s c (some (some n)) = some (resume_other s n)

unfoldable pub tick_current : Sched → ℕ → ℕ → Option Sched
tick_current s c regs =
    let r = reap_terminated s in
    let ts = save_current r.tasks c regs in
    switch_to (record r { tasks = ts }) c (find_next_ready ts c)

unfoldable pub tick : Sched → ℕ → Option Sched
tick s regs = elim s.started [
  | false ↦ some s
  | true ↦ elim s.current [ none ↦ some s | some c ↦ tick_current s c regs ]
]
