-- ===== src/Syscall/Brk.antt =====
-- `sysBrk` of src/kernel/syscall.cpp: what lies below the break is mapped.
use weng_shi_os.Base.{
  ℕ, ◌+◌, ◌-◌, ◌*◌, ◌/◌, ◌^◌, ◌≤◌, ◌<◌, ◌≡◌, Bool, true, false, ◌==◌, leb, arith, refl, sym, subst,
  Bool-cases, inl, inr, dec_lt, ◌⊎◌, leb→le, none, some,
}
use weng_shi_os.Base.Word.{add64, mul64}
use weng_shi_os.Scheduler.Task.{Task}
use weng_shi_os.Syscall.{
  page_size, brk_region_start, ready_brk, page_end, map_pages, brk_of, sys_brk,
}
use weng_shi_os.Syscall.Pages.{
  page_of, Maps, IsCovered, map_pages-stays, map_pages-here, AllHad, Growth, whole, cut,
  map_pages-Growth,
}

-- The pages between the break and a request.
abbrev pub rounds_to : Task → ℕ → ℕ
rounds_to task requested = (page_end requested - page_end (Task.brk_current task)) / page_size

module _ {W : Type 0} (alloc : W → ℕ → W × Bool) (IsMapped : W → ℕ → Type 0)
    (m : Maps alloc IsMapped) where
  -- How the break moves: it stays where no more is asked for than there is; it is the request where
  -- all the pages up to it were had; else it stays, and one of those pages failed.
  pub data Reached (w : W) (task : Task) (requested : ℕ) (r : W × Task × ℕ) : Type 0 where
    within :
        requested ≤ task.brk_current → r ≡ (w, task, task.brk_current) → Reached w task requested r
    grown :
        task.brk_current < requested
        → AllHad alloc (rounds_to task requested) w (page_end task.brk_current) r.0
        → r.1 ≡ record task { brk_current = requested }
        → r.2 ≡ requested
        → Reached w task requested r
    failed :
        (k : ℕ) (v : W)
        → task.brk_current < requested
        → k < rounds_to task requested
        → AllHad alloc k w (page_end task.brk_current) v
        → alloc v (page_end task.brk_current + k * page_size) ≡ (r.0, false)
        → r.1 ≡ task
        → r.2 ≡ task.brk_current
        → Reached w task requested r

  -- What a call leaves.
  pub record BrkAnswer (w : W) (task : Task) (requested : ℕ) (r : W × Task × ℕ) : Type 0 where
    pub covered : IsCovered IsMapped r.0 r.1
    pub answered : r.2 ≡ Task.brk_current r.1
    pub start_kept : Task.brk_start r.1 ≡ Task.brk_start (ready_brk task)
    pub not_below : Task.brk_current (ready_brk task) ≤ r.2
    pub reached : Reached w (ready_brk task) requested r

  module _ (w : W) (old : Task) (requested : ℕ) (small : requested ≤ 2 ^ 64 - page_size)
      (c : IsCovered IsMapped w (ready_brk old)) where
    abbrev task : Task
    task = ready_brk old

    abbrev rounds : ℕ
    rounds = rounds_to task requested

    abbrev mapped : W × Bool
    mapped = map_pages alloc rounds w (page_end (Task.brk_current task))

    no_growth :
        leb requested (Task.brk_current task) ≡ true
        → brk_of alloc w old requested ≡ (w, task, Task.brk_current task)
    unfolding brk_of
    no_growth e = ground (arith, e)

    growth :
        leb requested (Task.brk_current task) ≡ false
        → mapped.1 ≡ true
        → brk_of alloc w old requested
          ≡ (mapped.0, record task { brk_current = requested }, requested)
    unfolding brk_of
    growth e ok = ground (arith, e, ok)

    no_memory :
        leb requested (Task.brk_current task) ≡ false
        → mapped.1 ≡ false
        → brk_of alloc w old requested ≡ (mapped.0, task, Task.brk_current task)
    unfolding brk_of
    no_memory e ok = ground (arith, e, ok)

    old_pages_stay : IsCovered IsMapped mapped.0 task
    old_pages_stay = record {
      aligned = c.aligned;
      above = c.above;
      small = c.small;
      mapped = λ a lo hi.
          map_pages-stays alloc IsMapped m rounds w (page_end (Task.brk_current task)) (page_of a)
            (c.mapped a lo hi);
    }

    -- The page of an address below the new break.
    page_mapped :
        mapped.1 ≡ true
        → (a : ℕ) → Task.brk_current task ≤ a
        → a < requested
        → IsMapped mapped.0 (page_of a)
    unfolding page_end
    page_mapped ok a lo hi = elim (dec_lt a (page_end (Task.brk_current task))) [
      | yes before ↦
          subst (IsMapped mapped.0) {x = page_of (Task.brk_current task - 1)}
            (omega (arith, lo, before, c.aligned, c.above, c.small))
            (old_pages_stay.mapped (Task.brk_current task - 1)
              (omega (arith, lo, before, c.aligned, c.above, c.small))
              (omega (arith, lo, before, c.aligned, c.above, c.small)))
      | no behind ↦
          subst (IsMapped mapped.0)
            {x = page_end (Task.brk_current task)
              + (a - page_end (Task.brk_current task)) / page_size * page_size}
            (omega (arith, behind, c.small))
            (map_pages-here alloc IsMapped m rounds w (page_end (Task.brk_current task))
              ((a - page_end (Task.brk_current task)) / page_size)
              (omega (arith, behind, hi, small, c.small)) ok)
    ]

    below_break :
        mapped.1 ≡ true
        → (a : ℕ) → Task.brk_start task ≤ a
        → a < requested
        → IsMapped mapped.0 (page_of a)
    below_break ok a lo hi = elim (dec_lt a (Task.brk_current task)) [
      | yes old_part ↦ old_pages_stay.mapped a lo old_part
      | no new_part ↦ page_mapped ok a (omega arith) hi
    ]

    unchanged :
        (v : W)
        → IsCovered IsMapped v task
        → Reached w task requested (v, task, Task.brk_current task)
        → BrkAnswer w old requested (v, task, Task.brk_current task)
    unchanged v d r = record {
      covered = d;
      answered = refl;
      start_kept = refl;
      not_below = omega arith;
      reached = r;
    }

    enlarged :
        Task.brk_current task < requested
        → mapped.1 ≡ true
        → AllHad alloc rounds w (page_end (Task.brk_current task)) mapped.0
        → BrkAnswer w old requested (mapped.0, record task { brk_current = requested }, requested)
    enlarged more ok all = record {
      covered = record {
        aligned = c.aligned;
        above = omega (arith, more, c.above);
        small = small;
        mapped = below_break ok;
      };
      answered = refl;
      start_kept = refl;
      not_below = omega (arith, more);
      reached = grown more all refl refl;
    }

    grown_answer :
        leb requested (Task.brk_current task) ≡ false
        → Growth alloc rounds w (page_end (Task.brk_current task)) mapped
        → BrkAnswer w old requested (brk_of alloc w old requested)
    grown_answer e (whole all ok) =
        subst (BrkAnswer w old requested) (sym (growth e ok)) (enlarged (ground (arith, e)) ok all)
    grown_answer e (cut k v lt all fails gone) =
        subst (BrkAnswer w old requested) (sym (no_memory e gone)) (
          unchanged mapped.0 old_pages_stay (failed k v (ground (arith, e)) lt all fails refl refl))

    answer : BrkAnswer w old requested (brk_of alloc w old requested)
    answer = elim (Bool-cases (leb requested (Task.brk_current task))) [
      | inl e ↦
          subst (BrkAnswer w old requested) (sym (no_growth e))
            (unchanged w c (within (leb→le _ _ e) refl))
      | inr e ↦
          grown_answer e
            (map_pages-Growth alloc IsMapped m rounds w (page_end (Task.brk_current task)))
    ]

  fresh_brk :
      (w : W) (old : Task)
      → old.brk_start ≡ 0
      → old.id < 2 ^ 32
      → IsCovered IsMapped w (ready_brk old)
  unfolding ready_brk
  fresh_brk w old e small =
      let first : (old.brk_start == 0) ≡ true = ground (arith, e) in
      subst (IsCovered IsMapped w) (sym (started first)) (record {
        aligned = omega arith;
        above = omega arith;
        small = omega (arith, small);
        mapped = λ a lo hi. absurd (omega arith);
      })
    where
      started :
          (old.brk_start == 0) ≡ true
          → ready_brk old ≡ record old {
            brk_start = add64 brk_region_start (mul64 old.id 0x10000000);
            brk_current = add64 brk_region_start (mul64 old.id 0x10000000);
          }
      started first = ground (arith, first)

  old_brk :
      (w : W) (old : Task)
      → 0 < old.brk_start
      → IsCovered IsMapped w old
      → IsCovered IsMapped w (ready_brk old)
  unfolding ready_brk
  old_brk w old pos c =
      let kept : ready_brk old ≡ old = ground (arith, pos) in
      subst (IsCovered IsMapped w) (sym kept) c

  -- Without a current task the call answers -1, all ones, and changes nothing. Where pages stay
  -- mapped, for a task with a 32-bit id and no break yet or all mapped below its break, and a
  -- request of at most 2 ^ 64 - 4096: all below the break is mapped afterwards, the break is what
  -- is answered, it is not below the old one, and its start stays. The break is the old one, with
  -- nothing mapped, exactly where no more is asked for than there is; else it is the request where
  -- each page up to it was had, in order, and the old one where one of those pages failed, the
  -- first that did being the last that was asked for.
  pub sys_brk-BrkAnswer :
      (w : W) (old : Task) (requested : ℕ)
      → requested ≤ 2 ^ 64 - page_size
      → old.id < 2 ^ 32
      → ((old.brk_start ≡ 0) ⊎ ((0 < old.brk_start) × IsCovered IsMapped w old))
      → (sys_brk alloc w none requested ≡ (w, none, 2 ^ 64 - 1))
        × ((r : W × Task × ℕ) × (sys_brk alloc w (some old) requested ≡ (r.0, some r.1, r.2))
            × BrkAnswer w old requested r)
  unfolding sys_brk
  sys_brk-BrkAnswer w old requested small id (inl e) = (
    refl,
    (brk_of alloc w old requested, refl, answer w old requested small (fresh_brk w old e id)),
  )
  sys_brk-BrkAnswer w old requested small id (inr c) = (
    refl,
    (brk_of alloc w old requested, refl, answer w old requested small (old_brk w old c.0 c.1)),
  )
