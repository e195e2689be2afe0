-- ===== src/Scheduler/Born.antt =====
-- What `createTask` of src/shed/scheduler.cpp does to the ring.
use weng_shi_os.Base.{
  ℕ, zero, suc, ◌+◌, ◌≤◌, ◌<◌, ◌≡◌, ◌≢◌, refl, ◌==◌, List, [], ◌∷◌, ◌++◌, length, set,
  length-append, length-set, Option, none, some, if◌then◌else◌, arith, ◌∙◌, inl, inr, sym,
  Option-cases,
}
use weng_shi_os.Scheduler.Task.{Task, ready, Sched, task_at}
use weng_shi_os.Scheduler.Create.{create_task, new_task}
use weng_shi_os.Scheduler.Ring.{IsRing, around, task_at-set}
use weng_shi_os.Scheduler.Valid.{
  IsValid, last_place, InRange, AllBelow, empty_of_tail, length_of_tail,
}

task_at-append :
    (ts : List Task) (t : Task) (j : ℕ)
    → task_at (ts ++ t ∷ []) j ≡ (if j == length ts then t else task_at ts j)
task_at-append [] t zero = refl
task_at-append [] t (suc j) = ground arith
task_at-append (u ∷ ts) t zero = ground arith
task_at-append (u ∷ ts) t (suc j) = ground (arith, task_at-append ts t j)

-- The ring once the tail points to a new task, which points to the first.
linked_tasks : List Task → ℕ → Task → List Task
linked_tasks ts tail t =
    set ts tail (record (task_at ts tail) { next = length ts })
    ++ record t { next = (task_at ts tail).next } ∷ []

linked_at :
    (ts : List Task) (tail : ℕ) (t : Task) (j : ℕ)
    → tail < length ts
    → task_at (linked_tasks ts tail t) j ≡ (
        if j == length ts
        then record t { next = (task_at ts tail).next }
        else if tail == j
        then record (task_at ts tail) { next = length ts }
        else task_at ts j)
unfolding linked_tasks
linked_at ts tail t j h = ground (
  arith,
  task_at-append (set ts tail (record (task_at ts tail) { next = length ts }))
      (record t { next = (task_at ts tail).next }) j,
  task_at-set ts tail j (record (task_at ts tail) { next = length ts }) h,
  length-set ts tail (record (task_at ts tail) { next = length ts }),
)

-- What a successful call leaves: one task more, at the end of the ring and Ready, with the id that
-- was next; of the other tasks only the links of the ring change.
pub record Born (s s' : Sched) (t : Task) : Type 0 where
  pub valid : IsValid s'
  pub count : length s'.tasks ≡ length s.tasks + 1
  pub newest : task_at s'.tasks (length s.tasks) ≡ record t { next = 0 }
  pub others :
      (i : ℕ)
      → i < length s.tasks
      → task_at s'.tasks i ≡ record (task_at s.tasks i) { next = around (length s.tasks + 1) i 1 }

AllBelow-mono : (m n : ℕ) (is : List ℕ) → m ≤ n → AllBelow m is → AllBelow n is
AllBelow-mono m n [] h b = tt
AllBelow-mono m n (i ∷ is) h b = (omega arith, AllBelow-mono m n is h b.1)

length-linked :
    (ts : List Task) (tail : ℕ) (t : Task) → length (linked_tasks ts tail t) ≡ length ts + 1
unfolding linked_tasks
length-linked ts tail t = omega (
  arith,
  length-append (set ts tail (record (task_at ts tail) { next = length ts }))
      (record t { next = (task_at ts tail).next } ∷ []),
  length-set ts tail (record (task_at ts tail) { next = length ts }),
)

linked-IsRing :
    (ts : List Task) (tail : ℕ) (t : Task)
    → suc tail ≡ length ts
    → IsRing ts
    → IsRing (linked_tasks ts tail t)
linked-IsRing ts tail t e ring i h =
    ground (arith, linked_at ts tail t i, length-linked ts tail t, ring i, ring tail)

last_place-linked :
    (ts : List Task) (tail : ℕ) (t : Task) → last_place (linked_tasks ts tail t) ≡ some (length ts)
unfolding linked_tasks
last_place-linked ts tail t =
    last_place-append (set ts tail _) _
    ∙ ground (arith, length-set ts tail (record (task_at ts tail) { next = length ts }))
  where
    last_place-append : (us : List Task) (u : Task) → last_place (us ++ u ∷ []) ≡ some (length us)
    last_place-append [] u = refl
    last_place-append (v ∷ us) u = ground (arith, length-append us (u ∷ []))

InRange-mono :
    (ts us : List Task) (c : Option ℕ) → length ts ≤ length us → InRange ts c → InRange us c
InRange-mono ts us none h r = tt
InRange-mono ts us (some c) h r = omega arith

-- Linking behind the tail.
behind_tail :
    (s s' : Sched) (t : Task) (tail : ℕ)
    → IsValid s
    → suc tail ≡ length s.tasks
    → t.state ≡ ready
    → s'.tasks ≡ linked_tasks s.tasks tail t
    → s'.tail ≡ some (length s.tasks)
    → s'.current ≡ s.current
    → s'.pending_cleanup ≡ s.pending_cleanup
    → Born s s' t
behind_tail s s' t tail v e fresh tasks tail' current pending = record {
  valid = record {
    ring = rw tasks (linked-IsRing s.tasks tail t e v.ring);
    tail_last = tail' ∙ rw tasks (sym (last_place-linked s.tasks tail t));
    current_in =
        rw (tasks, current) (InRange-mono s.tasks _ s.current (omega (arith, grown)) v.current_in);
    one_runs = λ i h. current ∙ v.one_runs i (ground (arith, tasks, h, linked_at s.tasks tail t i));
    few_pending = rw pending v.few_pending;
    pending_in =
        rw (tasks, pending)
          (AllBelow-mono _ _ s.pending_cleanup (omega (arith, grown)) v.pending_in);
  };
  count = rw tasks grown;
  newest = ground (arith, tasks, linked_at s.tasks tail t (length s.tasks), v.ring tail);
  others = λ i h. ground (arith, tasks, linked_at s.tasks tail t i, v.ring i, v.ring tail);
}
  where
    grown : length (linked_tasks s.tasks tail t) ≡ length s.tasks + 1
    grown = length-linked s.tasks tail t

-- Linking into an empty ring.
into_empty :
    (s s' : Sched) (t : Task)
    → IsValid s
    → s.tasks ≡ []
    → t.state ≡ ready
    → s'.tasks ≡ record t { next = 0 } ∷ []
    → s'.tail ≡ some 0
    → s'.current ≡ s.current
    → s'.pending_cleanup ≡ s.pending_cleanup
    → Born s s' t
into_empty s s' t v e fresh tasks tail' current pending = record {
  valid = record {
    ring = λ i h. only i (rw tasks at h);
    tail_last = tail' ∙ rw tasks;
    current_in =
        rw current (InRange-mono s.tasks s'.tasks s.current (omega (arith, grown)) v.current_in);
    one_runs = λ i h.
        absurd (ground (arith, h, tasks, fresh, task_at-append [] (record t { next = 0 }) i));
    few_pending = rw pending v.few_pending;
    pending_in =
        rw pending (AllBelow-mono _ _ s.pending_cleanup (omega (arith, grown)) v.pending_in);
  };
  count = grown;
  newest = rw (tasks, e);
  others = λ i h. absurd (ground (arith, e, h));
}
  where
    grown : length s'.tasks ≡ length s.tasks + 1
    grown = rw (tasks, e) (omega arith)

    only : (i : ℕ) → i < 1 → (task_at s'.tasks i).next ≡ around (length s'.tasks) i 1
    only zero h = rw tasks (ground arith)
    only (suc i) h = absurd (omega arith)

-- When the three allocations and the address space are there, `createTask` returns a new Ready task
-- at the end of the ring, and the invariant holds again.
pub create_task-Born :
    (s : Sched) (entry stack_size task stack kstack plm4 : ℕ)
    → IsValid s
    → task ≢ 0
    → stack ≢ 0
    → kstack ≢ 0
    → plm4 ≢ 0
    → let (s', answer) = create_task s entry stack_size task stack kstack plm4 in
      (answer ≡ some (length s.tasks)) × Born s s' (new_task s stack kstack plm4 stack_size)
unfolding create_task linked_tasks
create_task-Born s entry stack_size task stack kstack plm4 v h1 h2 h3 h4 =
    elim (Option-cases s.tail) [
      | inl e ↦
          let no_tasks : s.tasks ≡ [] = empty_of_tail s.tasks (sym e ∙ v.tail_last) in
          (
            ground arith,
            into_empty s _ t v no_tasks refl (ground arith) (ground arith) (ground arith)
                (ground arith),
          )
      | inr (tail, e) ↦ (
        ground arith,
        behind_tail s _ t tail v (length_of_tail s.tasks tail (sym e ∙ v.tail_last)) refl
            (ground arith) (ground arith) (ground arith) (ground arith),
      )
    ]
  where
    t : Task
    t = new_task s stack kstack plm4 stack_size
