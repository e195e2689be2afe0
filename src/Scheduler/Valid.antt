-- ===== src/Scheduler/Valid.antt =====
-- The invariant of the scheduler's variables in src/shed/scheduler.cpp.
use weng_shi_os.Base.{
  ℕ, suc, ◌≤◌, ◌<◌, ◌≡◌, refl, true, List, [], ◌∷◌, length, Option, none, some, arith,
}
use weng_shi_os.Scheduler.Task.{Task, Sched, task_at, max_pending_cleanup, is_ready, is_running}
use weng_shi_os.Scheduler.Search.{find_next_ready}
use weng_shi_os.Scheduler.Ring.{IsRing, Searched, around, search_all}

abbrev pub last_place : List Task → Option ℕ
last_place [] = none
last_place (t ∷ ts) = some (length ts)

pub empty_of_tail : (ts : List Task) → none ≡ last_place ts → ts ≡ []
empty_of_tail [] e = refl
empty_of_tail (t ∷ ts) e = cc

pub length_of_tail : (ts : List Task) (tail : ℕ) → some tail ≡ last_place ts → suc tail ≡ length ts
length_of_tail [] tail e = cc
length_of_tail (t ∷ ts) tail e = ground arith

abbrev pub InRange : List Task → Option ℕ → Type 0
InRange ts none = Unit {0}
InRange ts (some c) = c < length ts

abbrev pub AllBelow : ℕ → List ℕ → Type 0
AllBelow n [] = Unit {0}
AllBelow n (i ∷ is) = (i < n) × AllBelow n is

-- The tail is the last task, the current task exists, no other task is Running, and the clean-up
-- list holds at most eight tasks that exist.
pub record IsValid (s : Sched) : Type 0 where
  pub ring : IsRing s.tasks
  pub tail_last : s.tail ≡ last_place s.tasks
  pub current_in : InRange s.tasks s.current
  pub one_runs : (i : ℕ) → is_running (task_at s.tasks i).state ≡ true → s.current ≡ some i
  pub few_pending : length s.pending_cleanup ≤ max_pending_cleanup
  pub pending_in : AllBelow (length s.tasks) s.pending_cleanup

-- `findNextReady` ends, with the first Ready task behind `from` in the ring, itself last, or with a
-- null pointer if no task is Ready.
pub find_next_ready-Searched :
    (ts : List Task) (from : ℕ)
    → IsRing ts
    → from < length ts
    → Searched (λ t. is_ready t.state) ts (around (length ts) from 1) (find_next_ready ts from)
unfolding find_next_ready
find_next_ready-Searched ts from ring h =
    rw (ring from h) (search_all (λ t. is_ready t.state) ts _ ring (ground arith))
