-- ===== src/Scheduler/Ring.antt =====
-- The ring of tasks of src/shed/scheduler.cpp: each task's `next` is the one created after it, and
-- the last task's is the first.
use weng_shi_os.Base.{
  ℕ, zero, suc, ◌+◌, ◌-◌, ◌<◌, ◌≡◌, Bool, true, false, ◌==◌, ltb, List, length, set, length-set,
  get_or-set_self, get_or-set_ne, Option, none, some, if◌then◌else◌, arith, ℕ_discrete, inl, inr,
  Bool-cases, subst,
}
use weng_shi_os.Scheduler.Task.{Task, task_at, no_task}
use weng_shi_os.Scheduler.Search.{ring_search}

-- The place `k` steps behind `s`, in a ring of `n` places.
abbrev pub around : ℕ → ℕ → ℕ → ℕ
around n s k = if ltb (s + k) n then s + k else s + k - n

abbrev pub IsRing : List Task → Type 0
IsRing ts = (i : ℕ) → i < length ts → (task_at ts i).next ≡ around (length ts) i 1

-- A write reaches one task.
pub task_at-set :
    (ts : List Task) (i j : ℕ) (t : Task)
    → i < length ts
    → task_at (set ts i t) j ≡ (if i == j then t else task_at ts j)
task_at-set ts i j t h = elim (ℕ_discrete i j) [
  | yes e ↦ rw (← e) (ground (arith, get_or-set_self ts i t no_task h))
  | no ne ↦ ground (arith, get_or-set_ne ts i j t no_task ne)
]

-- A write that keeps `next` keeps the ring.
pub IsRing-set :
    (ts : List Task) (i : ℕ) (t : Task)
    → i < length ts
    → t.next ≡ (task_at ts i).next
    → IsRing ts
    → IsRing (set ts i t)
IsRing-set ts i t hi e r j hj = ground (arith, task_at-set ts i j t hi, length-set ts i t, r j)

module _ (test : Task → Bool) (ts : List Task) (start : ℕ) where
  -- How a search round the ring ends: at the first place that passes, or, once all have failed, with
  -- a null pointer.
  pub data Searched (r : Option (Option ℕ)) : Type 0 where
    found :
        (j : ℕ)
        → j < length ts
        → ((k : ℕ) → k < j → test (task_at ts (around (length ts) start k)) ≡ false)
        → test (task_at ts (around (length ts) start j)) ≡ true
        → r ≡ some (some (around (length ts) start j))
        → Searched r
    nothing :
        ((k : ℕ) → k < length ts → test (task_at ts (around (length ts) start k)) ≡ false)
        → r ≡ some none
        → Searched r

  fails_too :
      (j : ℕ)
      → ((k : ℕ) → k < j → test (task_at ts (around (length ts) start k)) ≡ false)
      → test (task_at ts (around (length ts) start j)) ≡ false
      → (k : ℕ) → k < suc j
      → test (task_at ts (around (length ts) start k)) ≡ false
  fails_too j seen last k h = elim (ℕ_discrete k j) [
    | yes e ↦ rw e last
    | no ne ↦ seen k (omega arith)
  ]

  search_step :
      (f c q : ℕ)
      → test (task_at ts c) ≡ false
      → (task_at ts c).next ≡ q
      → (q == start) ≡ false
      → ring_search test (suc f) ts start c ≡ ring_search test f ts start q
  unfolding ring_search
  search_step f c q fail following more = ground arith

  ring_search-next :
      (f j : ℕ)
      → IsRing ts
      → start < length ts
      → j < length ts
      → test (task_at ts (around (length ts) start j)) ≡ false
      → suc j < length ts
      → ring_search test (suc f) ts start (around (length ts) start j)
        ≡ ring_search test f ts start (around (length ts) start (suc j))
  ring_search-next f j ring hs hj fail more =
      search_step f (around (length ts) start j) (around (length ts) start (suc j)) fail
        (ground (arith, ring (around (length ts) start j))) (ground arith)

  -- The fuel of as many rounds as there are tasks is enough.
  ring_search-Searched :
      (f j : ℕ)
      → IsRing ts
      → start < length ts
      → f + j ≡ length ts
      → j < length ts
      → ((k : ℕ) → k < j → test (task_at ts (around (length ts) start k)) ≡ false)
      → Searched (ring_search test f ts start (around (length ts) start j))
  unfolding ring_search
  ring_search-Searched zero j ring hs e hj seen = absurd (omega arith)
  ring_search-Searched (suc f) j ring hs e hj seen = elim (Bool-cases (test (task_at ts c))) [
    | inl pass ↦ found j hj seen pass (rw (pass, ring_search))
    | inr fail ↦ elim (ℕ_discrete (suc j) (length ts)) [
      | yes last ↦
          nothing (λ k h. fails_too j seen fail k (omega arith))
            (rw (fail, ring_search) (ground (arith, ring c)))
      | no more ↦ rw (ring_search-next f j ring hs hj fail (omega arith)) (
          ring_search-Searched f (suc j) ring hs (omega arith) (omega arith)
            (fails_too j seen fail))
    ]
  ]
    where
      c : ℕ
      c = around (length ts) start j

  around-start :
      around (length ts) start 0 ≡ start
      → IsRing ts
      → start < length ts
      → Searched (ring_search test (length ts) ts start start)
  around-start e ring hs =
      subst (λ (c : ℕ). Searched (ring_search test (length ts) ts start c)) e
        (ring_search-Searched (length ts) 0 ring hs (omega arith) (omega arith) (λ k h. elim h [ ]))

  -- A search from its start visits the whole ring.
  pub search_all :
      IsRing ts → start < length ts → Searched (ring_search test (length ts) ts start start)
  search_all ring hs = around-start (ground arith) ring hs
