-- ===== src/Scheduler/Find.antt =====
-- What `findTaskById` finds and what a wake-up leaves, for `killTask` and `waitForTask` of src/shed/scheduler.cpp.
use weng_shi_os.Base.{
  ℕ, zero, suc, ◌≤◌, ◌<◌, ◌≡◌, ◌≢◌, refl, ◌==◌, ◌&&◌, List, [], ◌∷◌, length, length-set, Option,
  none, some, if◌then◌else◌, arith, ◌∙◌, sym, inl, inr, Option-cases, ◌⊎◌, dec_lt,
}
use weng_shi_os.Scheduler.Task.{Task, ready, Sched, task_at, no_task, is_blocked, with_state}
use weng_shi_os.Scheduler.Search.{find_task_by_id, ring_search}
use weng_shi_os.Scheduler.Calls.{wake}
use weng_shi_os.Scheduler.Ring.{task_at-set, Searched, found, nothing, search_all}
use weng_shi_os.Scheduler.Valid.{IsValid, empty_of_tail, length_of_tail}

-- The first task with an id, in the order of creation.
pub record FirstWith (ts : List Task) (id i : ℕ) : Type 0 where
  pub here : i < length ts
  pub named : (task_at ts i).id ≡ id
  pub first : (k : ℕ) → k < i → (task_at ts k).id ≢ id

find_without_tail : (s : Sched) (id : ℕ) → s.tail ≡ none → find_task_by_id s id ≡ some none
unfolding find_task_by_id
find_without_tail s id e = ground arith

find_from_tail :
    (s : Sched) (id tail : ℕ)
    → s.tail ≡ some tail
    → (task_at s.tasks tail).next ≡ 0
    → find_task_by_id s id ≡ ring_search (λ t. t.id == id) (length s.tasks) s.tasks 0 0
unfolding find_task_by_id
find_from_tail s id tail e first = ground arith

from_first :
    (s : Sched) (id : ℕ) {r : Option (Option ℕ)}
    → find_task_by_id s id ≡ r
    → Searched (λ t. t.id == id) s.tasks 0 r
    → (((k : ℕ) → k < length s.tasks → (task_at s.tasks k).id ≢ id)
        × (find_task_by_id s id ≡ some none))
      ⊎ ((i : ℕ) × FirstWith s.tasks id i × (find_task_by_id s id ≡ some (some i)))
from_first s id e (found j h before match r) = inr (
  j,
  record { here = h; named = ground (arith, match); first = λ k l. ground (arith, before k l) },
  ground (arith, e, r),
)
from_first s id e (nothing all r) = inl (λ k l. ground (arith, all k l), e ∙ r)

pub find_first :
    (s : Sched) (id : ℕ)
    → IsValid s
    → (((k : ℕ) → k < length s.tasks → (task_at s.tasks k).id ≢ id)
        × (find_task_by_id s id ≡ some none))
      ⊎ ((i : ℕ) × FirstWith s.tasks id i × (find_task_by_id s id ≡ some (some i)))
find_first s id v = elim (Option-cases s.tail) [
  | inl e ↦ inl (
    λ k h. absurd (ground (arith, h, empty_of_tail s.tasks (sym e ∙ v.tail_last))),
    find_without_tail s id e,
  )
  | inr (tail, e) ↦
      let last : suc tail ≡ length s.tasks = length_of_tail s.tasks tail (sym e ∙ v.tail_last) in
      from_first s id (find_from_tail s id tail e (ground (arith, v.ring tail, last)))
        (search_all (λ t. t.id == id) s.tasks 0 v.ring (omega arith))
]

task_at_outside : (ts : List Task) (p : ℕ) → length ts ≤ p → task_at ts p ≡ no_task
task_at_outside [] p h = refl
task_at_outside (t ∷ ts) zero h = absurd (omega arith)
task_at_outside (t ∷ ts) (suc p) h = task_at_outside ts p (omega arith)

-- What `wake` leaves: the same tasks, but one that was Blocked is Ready.
pub record Woken (ts us : List Task) (p : ℕ) : Type 0 where
  pub size : length us ≡ length ts
  pub same : (i : ℕ) → (task_at us i).next ≡ (task_at ts i).next
  pub codes : (i : ℕ) → (task_at us i).exit_code ≡ (task_at ts i).exit_code
  pub states :
      (i : ℕ)
      → (task_at us i).state
        ≡ (if p == i && is_blocked (task_at ts i).state then ready else (task_at ts i).state)

pub wake-Woken : (ts : List Task) (p : ℕ) → Woken ts (wake ts p) p
unfolding wake
wake-Woken ts p = elim (dec_lt p (length ts)) [
  | yes h ↦ record {
    size = ground (arith, length-set ts p (with_state (task_at ts p) ready));
    same = λ i. ground (arith, task_at-set ts p i (with_state (task_at ts p) ready) h);
    codes = λ i. ground (arith, task_at-set ts p i (with_state (task_at ts p) ready) h);
    states = λ i. ground (arith, task_at-set ts p i (with_state (task_at ts p) ready) h);
  }
  | no h ↦ record {
    size = ground (arith, task_at_outside ts p);
    same = λ i. ground (arith, task_at_outside ts p);
    codes = λ i. ground (arith, task_at_outside ts p);
    states = λ i. ground (arith, task_at_outside ts p);
  }
]
