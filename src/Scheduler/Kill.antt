-- ===== src/Scheduler/Kill.antt =====
-- `killTask` of src/shed/scheduler.cpp.
use weng_shi_os.Base.{
  subst, ℕ, ◌≤◌, ◌<◌, ◌≡◌, ◌≢◌, refl, Bool, true, false, ◌==◌, ◌&&◌, ltb, List, [], ◌∷◌, ◌++◌,
  length, set, length-set, length-append, Option, none, some, if◌then◌else◌, arith, ◌∙◌, sym, ap,
  inl, inr, Bool-cases, Option-cases, ◌⊎◌, ℕ_discrete,
}
use weng_shi_os.Base.Int.{ℤ}
use weng_shi_os.Scheduler.Task.{
  Task, TaskState, ready, running, blocked, terminated, Sched, task_at, is_running, is_blocked,
  is_terminated,
}
use weng_shi_os.Scheduler.Search.{find_task_by_id}
use weng_shi_os.Scheduler.Calls.{
  wake, push_pending, kill_target, kill_task, answers, never_returns, is_current,
}
use weng_shi_os.Scheduler.Ring.{task_at-set}
use weng_shi_os.Scheduler.Valid.{IsValid, InRange, AllBelow}
use weng_shi_os.Scheduler.Find.{FirstWith, find_first, Woken, wake-Woken}
use weng_shi_os.Scheduler.Saved.{IsRing-same, last_place_size}

abbrev pub points_to : Option ℕ → ℕ → Bool
points_to none i = false
points_to (some p) i = p == i

-- What `killTask` does to a live task `i`: it is Terminated with the exit code, the task that waits
-- for it, if any, is Ready if it was Blocked, and no other task changes its state.
pub record Killed (s : Sched) (i : ℕ) (exit_code : ℤ) (s' : Sched) : Type 0 where
  pub valid : IsValid s'
  pub size : length s'.tasks ≡ length s.tasks
  pub dead : (task_at s'.tasks i).state ≡ terminated
  pub code : (task_at s'.tasks i).exit_code ≡ exit_code
  pub others :
      (j : ℕ)
      → i ≢ j
      → (task_at s'.tasks j).state ≡ (
          if points_to (task_at s.tasks i).waiting_parent j && is_blocked (task_at s.tasks j).state
          then ready
          else (task_at s.tasks j).state)
  pub focus : s'.focus ≡ (if s.focus == (task_at s.tasks i).id then 0 else s.focus)

length-push_pending : (i : ℕ) (is : List ℕ) → length is ≤ 8 → length (push_pending i is) ≤ 8
unfolding push_pending
length-push_pending i is h = ground (arith, length-append is (i ∷ []))

AllBelow-push : (n i : ℕ) (is : List ℕ) → i < n → AllBelow n is → AllBelow n (push_pending i is)
unfolding push_pending
AllBelow-push n i is h b = elim (Bool-cases (ltb (length is) 8)) [
  | inl room ↦ rw room (AllBelow-append is b)
  | inr full ↦ rw full b
]
  where
    AllBelow-append : (js : List ℕ) → AllBelow n js → AllBelow n (js ++ i ∷ [])
    AllBelow-append [] c = (h, tt)
    AllBelow-append (j ∷ js) c = (c.0, AllBelow-append js c.1)

InRange-size :
    (ts us : List Task) (c : Option ℕ) → length ts ≡ length us → InRange ts c → InRange us c
InRange-size ts us none e r = tt
InRange-size ts us (some c) e r = omega arith

runs_before :
    (t : TaskState) (p b : Bool)
    → true ≡ is_running (if p && b then ready else t)
    → is_running t ≡ true
runs_before t true true e = absurd (ground (arith, e))
runs_before t true false e = sym e
runs_before t false b e = sym e

-- The fields that `killTask` writes, whatever the list of tasks becomes.
module _ (s : Sched) (i : ℕ) (code : ℤ) where
  dead_tasks : List Task
  dead_tasks = set s.tasks i (record (task_at s.tasks i) { exit_code = code; state = terminated })

  parted : ℕ → List Task
  parted p =
      set (wake dead_tasks p) i (record (task_at (wake dead_tasks p) i) { waiting_parent = none })

  killed_tasks : Option ℕ → List Task
  unfolding dead_tasks parted
  killed_tasks none = dead_tasks
  killed_tasks (some p) = parted p

  record Written (us : List Task) (parent : Option ℕ) : Type 0 where
    size : length us ≡ length s.tasks
    same : (j : ℕ) → (task_at us j).next ≡ (task_at s.tasks j).next
    dead : (task_at us i).state ≡ terminated
    left : (task_at us i).exit_code ≡ code
    others :
        (j : ℕ)
        → i ≢ j
        → (task_at us j).state ≡ (
            if points_to parent j && is_blocked (task_at s.tasks j).state
            then ready
            else (task_at s.tasks j).state)

  killed-Written : (parent : Option ℕ) → i < length s.tasks → Written (killed_tasks parent) parent
  unfolding killed_tasks
  killed-Written none h = record {
    size = length-set s.tasks i _;
    same = λ j. ground (arith, task_at-set s.tasks i j corpse h);
    dead = ground (arith, task_at-set s.tasks i i corpse h);
    left = ground (arith, task_at-set s.tasks i i corpse h);
    others = λ j ne. ground (arith, task_at-set s.tasks i j corpse h);
  }
    where
      corpse : Task
      corpse = record (task_at s.tasks i) { exit_code = code; state = terminated }
  killed-Written (some p) h = record {
    size = length-set _ i last ∙ w.size ∙ length-set s.tasks i corpse;
    same = λ j. ground (arith, final j, w.same j, w.same i, fell j, fell i);
    dead = ground (arith, final i, w.states i, fell i);
    left = ground (arith, final i, w.codes i, fell i);
    others = λ j ne. ground (arith, final j, w.states j, fell j);
  }
    where
      corpse : Task
      corpse = record (task_at s.tasks i) { exit_code = code; state = terminated }

      w : Woken dead_tasks (wake dead_tasks p) p
      w = wake-Woken dead_tasks p

      last : Task
      last = record (task_at (wake dead_tasks p) i) { waiting_parent = none }

      fell : (j : ℕ) → task_at dead_tasks j ≡ (if i == j then corpse else task_at s.tasks j)
      fell j = task_at-set s.tasks i j corpse h

      final :
          (j : ℕ) → task_at (parted p) j ≡ (if i == j then last else task_at (wake dead_tasks p) j)
      final j =
          task_at-set (wake dead_tasks p) i j last
            (omega (arith, w.size, length-set s.tasks i corpse))

  written-Killed :
      (s' : Sched)
      → IsValid s
      → i < length s.tasks
      → s'.tasks ≡ killed_tasks (task_at s.tasks i).waiting_parent
      → s'.tail ≡ s.tail
      → s'.current ≡ s.current
      → (s'.pending_cleanup ≡ push_pending i s.pending_cleanup)
        ⊎ (s'.pending_cleanup ≡ push_pending i (push_pending i s.pending_cleanup))
      → s'.focus ≡ (if s.focus == (task_at s.tasks i).id then 0 else s.focus)
      → Killed s i code s'
  written-Killed s' v h tasks tail current pending focus = record {
    valid = record {
      ring = rw tasks (IsRing-same s.tasks _ w.size w.same v.ring);
      tail_last = tail ∙ v.tail_last ∙ last_place_size s.tasks s'.tasks (rw tasks (sym w.size));
      current_in =
          rw current (InRange-size s.tasks s'.tasks s.current (rw tasks (sym w.size)) v.current_in);
      one_runs = λ j r. current ∙ runs j r;
      few_pending = few pending;
      pending_in = subst (λ (n : ℕ). AllBelow n s'.pending_cleanup) (sym size) (inside pending);
    };
    size = size;
    dead = dead_now;
    code = rw tasks w.left;
    others = others;
    focus = focus;
  }
    where
      w :
          Written
            (killed_tasks (task_at s.tasks i).waiting_parent)
            (task_at s.tasks i).waiting_parent
      w = killed-Written (task_at s.tasks i).waiting_parent h

      size : length s'.tasks ≡ length s.tasks
      size = rw tasks w.size

      dead_now : (task_at s'.tasks i).state ≡ terminated
      dead_now = rw tasks w.dead

      running_dead : is_running (task_at s'.tasks i).state ≡ true → is_running terminated ≡ true
      running_dead r = sym (ap is_running dead_now) ∙ r

      others :
          (j : ℕ)
          → i ≢ j
          → (task_at s'.tasks j).state ≡ (
              if points_to (task_at s.tasks i).waiting_parent j
                && is_blocked (task_at s.tasks j).state
              then ready
              else (task_at s.tasks j).state)
      others j ne = rw tasks (w.others j ne)

      runs : (j : ℕ) → is_running (task_at s'.tasks j).state ≡ true → s.current ≡ some j
      runs j r = elim (ℕ_discrete i j) [
        | yes e ↦ absurd (
            ground (
              arith,
              running_dead
                  (subst (λ (k : ℕ). is_running (task_at s'.tasks k).state ≡ true) (sym e) r),
              dead_now,
            ))
        | no ne ↦ v.one_runs j (
            runs_before (task_at s.tasks j).state (points_to (task_at s.tasks i).waiting_parent j)
              (is_blocked (task_at s.tasks j).state) (sym r ∙ ap is_running (others j ne)))
      ]

      few :
          (s'.pending_cleanup ≡ push_pending i s.pending_cleanup)
            ⊎ (s'.pending_cleanup ≡ push_pending i (push_pending i s.pending_cleanup))
          → length s'.pending_cleanup ≤ 8
      few (inl e) = rw e (length-push_pending i s.pending_cleanup v.few_pending)
      few (inr e) = rw e (
          length-push_pending i (push_pending i s.pending_cleanup)
            (length-push_pending i s.pending_cleanup v.few_pending))

      inside :
          (s'.pending_cleanup ≡ push_pending i s.pending_cleanup)
            ⊎ (s'.pending_cleanup ≡ push_pending i (push_pending i s.pending_cleanup))
          → AllBelow (length s.tasks) s'.pending_cleanup
      inside (inl e) = rw e (AllBelow-push (length s.tasks) i s.pending_cleanup h v.pending_in)
      inside (inr e) = rw e (
          AllBelow-push (length s.tasks) i (push_pending i s.pending_cleanup) h
            (AllBelow-push (length s.tasks) i s.pending_cleanup h v.pending_in))

-- Every way in which a call of `killTask` ends.
pub data KillOutcome (s : Sched) (id : ℕ) (code : ℤ) : Type 0 where
  unknown :
      ((k : ℕ) → k < length s.tasks → (task_at s.tasks k).id ≢ id)
      → kill_task s id code ≡ some (s, answers false)
      → KillOutcome s id code
  dead_before :
      (i : ℕ)
      → FirstWith s.tasks id i
      → (task_at s.tasks i).state ≡ terminated
      → kill_task s id code ≡ some (s, answers false)
      → KillOutcome s id code
  killed :
      (i : ℕ) (s' : Sched)
      → FirstWith s.tasks id i
      → (task_at s.tasks i).state ≢ terminated
      → Killed s i code s'
      → kill_task s id code
        ≡ some (s', if is_current s.current i then never_returns else answers true)
      → KillOutcome s id code

kill_target-Killed :
    (s : Sched) (i : ℕ) (code : ℤ)
    → IsValid s
    → i < length s.tasks
    → Killed s i code (kill_target s i code)
unfolding kill_target killed_tasks dead_tasks parted
kill_target-Killed s i code v h = elim (Option-cases (task_at s.tasks i).waiting_parent) [
  | inl e ↦
      written-Killed s i code _ v h (ground arith) (ground arith) (ground arith)
        (inr (ground arith)) (ground arith)
  | inr (p, e) ↦
      written-Killed s i code _ v h (ground arith) (ground arith) (ground arith)
        (inl (ground arith)) (ground arith)
]

kill_unknown :
    (s : Sched) (id : ℕ) (code : ℤ)
    → find_task_by_id s id ≡ some none
    → kill_task s id code ≡ some (s, answers false)
unfolding kill_task
kill_unknown s id code e = ground arith

kill_dead :
    (s : Sched) (id i : ℕ) (code : ℤ)
    → find_task_by_id s id ≡ some (some i)
    → is_terminated (task_at s.tasks i).state ≡ true
    → kill_task s id code ≡ some (s, answers false)
unfolding kill_task
kill_dead s id i code e t = ground arith

kill_live :
    (s : Sched) (id i : ℕ) (code : ℤ)
    → find_task_by_id s id ≡ some (some i)
    → is_terminated (task_at s.tasks i).state ≡ false
    → kill_task s id code
      ≡ some (kill_target s i code, if is_current s.current i then never_returns else answers true)
unfolding kill_task
kill_live s id i code e t = ground (arith, e, t)

is_terminated-true : (t : TaskState) → is_terminated t ≡ true → t ≡ terminated
is_terminated-true terminated e = refl
is_terminated-true ready e = absurd (ground (arith, e))
is_terminated-true running e = absurd (ground (arith, e))
is_terminated-true blocked e = absurd (ground (arith, e))

-- On a valid scheduler `killTask` returns in every case. An id that no task has, and a task that is
-- already Terminated, give the answer false and change nothing. A live task is Terminated with the
-- exit code, the task that waits for it is Ready if it was Blocked, no other task changes its
-- state, the keyboard focus is taken from it, and the scheduler is valid again; the call then
-- answers true, or never returns when the task killed itself.
pub kill_task-Outcome : (s : Sched) (id : ℕ) (code : ℤ) → IsValid s → KillOutcome s id code
kill_task-Outcome s id code v = elim (find_first s id v) [
  | inl (none_has, e) ↦ unknown none_has (kill_unknown s id code e)
  | inr (i, f, e) ↦ elim (Bool-cases (is_terminated (task_at s.tasks i).state)) [
    | inl t ↦ dead_before i f (is_terminated-true _ t) (kill_dead s id i code e t)
    | inr t ↦
        killed i (kill_target s i code) f
          (λ z. absurd (ground (arith, sym (ap is_terminated z) ∙ t)))
          (kill_target-Killed s i code v f.here) (kill_live s id i code e t)
  ]
]
