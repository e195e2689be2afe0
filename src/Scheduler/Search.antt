-- ===== src/Scheduler/Search.antt =====
-- The searches round the ring of src/shed/scheduler.cpp.
use weng_shi_os.Base.{ℕ, zero, suc, Bool, true, false, ◌==◌, List, length, Option, none, some}
use weng_shi_os.Scheduler.Task.{Task, Sched, task_at, is_ready}

-- The do-while loops over the ring. The outer `none` means that the fuel ran out, the inner one is
-- a null pointer.
unfoldable pub ring_search : (Task → Bool) → ℕ → List Task → ℕ → ℕ → Option (Option ℕ)
ring_search test zero ts start candidate = none
ring_search test (suc f) ts start candidate = elim (test (task_at ts candidate)) [
  | true ↦ some (some candidate)
  | false ↦
      let following = (task_at ts candidate).next in
      elim (following == start) [ true ↦ some none | false ↦ ring_search test f ts start following ]
]

unfoldable pub find_next_ready : List Task → ℕ → Option (Option ℕ)
unfolding ring_search
find_next_ready ts from =
    let start = (task_at ts from).next in
    ring_search (λ t. is_ready t.state) (length ts) ts start start

unfoldable pub find_task_by_id : Sched → ℕ → Option (Option ℕ)
unfolding ring_search
find_task_by_id s id = elim s.tail [
  | none ↦ some none
  | some tail ↦
      let start = (task_at s.tasks tail).next in
      ring_search (λ t. t.id == id) (length s.tasks) s.tasks start start
]
