-- ===== src/Scheduler/Calls.antt =====
-- Blocking, waking, killing and waiting in src/shed/scheduler.cpp.
use weng_shi_os.Base.{
  ℕ, Bool, true, false, ◌==◌, ltb, List, [], ◌∷◌, ◌++◌, length, set, Option, none, some,
  if◌then◌else◌,
}
use weng_shi_os.Base.Int.{ℤ, negsuc}
use weng_shi_os.Scheduler.Task.{
  ready, blocked, terminated, Task, Sched, max_pending_cleanup, task_at, is_blocked, is_terminated,
  set_state,
}
use weng_shi_os.Scheduler.Search.{find_task_by_id}

-- `blockCurrent` before its `yield`, which is a tick at the interrupt `int $32`.
unfoldable pub block_current : Sched → Sched
block_current s = elim s.current [
  | none ↦ s
  | some c ↦ record s { tasks = set_state s.tasks c blocked }
]

unfoldable pub wake : List Task → ℕ → List Task
wake ts i = if is_blocked (task_at ts i).state then set_state ts i ready else ts

unfoldable pub push_pending : ℕ → List ℕ → List ℕ
push_pending i pending =
    if ltb (length pending) max_pending_cleanup then pending ++ i ∷ [] else pending

-- `killTask` from the point where the target is known to be alive.
unfoldable pub kill_target : Sched → ℕ → ℤ → Sched
kill_target s i exit_code =
    let t = task_at s.tasks i in
    let dead = set s.tasks i (record t { exit_code = exit_code; state = terminated }) in
    let s' : Sched = elim t.waiting_parent [
      | some parent ↦
          let woken = wake dead parent in
          record s { tasks = set woken i (record (task_at woken i) { waiting_parent = none }) }
      | none ↦ record s { tasks = dead; pending_cleanup = push_pending i s.pending_cleanup }
    ] in
    record s' {
      pending_cleanup = push_pending i s'.pending_cleanup;
      focus = if s.focus == t.id then 0 else s.focus;
    }

-- How a call ends: with an answer, or, for a task that killed itself, never.
pub data Ending : Type 0 where
  answers : Bool → Ending
  never_returns : Ending

unfoldable pub is_current : Option ℕ → ℕ → Bool
is_current none i = false
is_current (some c) i = c == i

unfoldable pub kill_task : Sched → ℕ → ℤ → Option (Sched × Ending)
unfolding kill_target push_pending is_current wake
kill_task s id exit_code = elim (find_task_by_id s id) [
  | none ↦ none
  | some none ↦ some (s, answers false)
  | some (some i) ↦
      if is_terminated (task_at s.tasks i).state
      then some (s, answers false)
      else some (
        kill_target s i exit_code,
        if is_current s.current i then never_returns else answers true,
      )
]

-- `waitForTask` up to the point where it answers or blocks, and what it answers once it runs again.
pub data Waiting : Type 0 where
  code : ℤ → Waiting
  waits_for : ℕ → Waiting

unfoldable pub wait_for_task : Sched → ℕ → Option (Sched × Waiting)
unfolding block_current
wait_for_task s id = elim (find_task_by_id s id) [
  | none ↦ none
  | some none ↦ some (s, code (negsuc 0))
  | some (some i) ↦
      let t = task_at s.tasks i in
      if is_terminated t.state
      then some (s, code t.exit_code)
      else some (
        block_current
            (record s { tasks = set s.tasks i (record t { waiting_parent = s.current }) }),
        waits_for i,
      )
]

unfoldable pub wait_resumed : Sched → ℕ → ℤ
wait_resumed s i = (task_at s.tasks i).exit_code

-- `exitTask` is the killing of the current task.
unfoldable pub exit_task : Sched → ℤ → Option (Sched × Ending)
exit_task s exit_code = elim s.current [
  | none ↦ none
  | some c ↦ kill_task s (task_at s.tasks c).id exit_code
]
