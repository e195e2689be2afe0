-- ===== src/Pmm/Alloc.antt =====
-- `allocFrame` and `freeFrame` of src/mm/pmm.cpp against the set of frames in use.
use native.Mathlib.Nat.{mod-eq_of_lt, mod-eq-sub-mod, mod-lt}
use weng_shi_os.Base.{
  ℕ, zero, suc, ◌+◌, ◌-◌, ◌*◌, ◌%◌, ◌^◌, ◌≤◌, ◌<◌, ◌≡◌, refl, Bool, true, false, ◌==◌, length,
  if◌then◌else◌, arith, Bool-cases, dec_lt, inl, inr,
}
use weng_shi_os.Base.Word.{u64_max, add64, mul64}
use weng_shi_os.Pmm.{Pmm, frame_size, set_bit, test_bit, alloc_loop, alloc_frame}
use weng_shi_os.Pmm.Bitmap.{
  count_used, count_used-le, count_used-set_bit, test_bit-set_bit, length-set_bit,
}

-- A physical address is below 2 ^ 64, so a frame number is below 2 ^ 52.
pub record IsValid (p : Pmm) : Type 0 where
  pub small : p.total_frames ≤ 2 ^ 52
  pub room : p.total_frames ≤ 8 * length p.bitmap
  pub counted : p.used_frames ≡ count_used p.bitmap p.total_frames
  pub hint_in : p.search_hint ≤ p.total_frames

abbrev pub is_used : Pmm → ℕ → Bool
is_used p frame = test_bit p.bitmap frame

-- The search reaches every frame.
probe_reaches :
    (hint total f : ℕ) → hint ≤ total → f < total → (j : ℕ) × (j < total) × ((hint + j) % total ≡ f)
probe_reaches hint total f h hf = elim (dec_lt f hint) [
  | yes lt ↦ (
    f + total - hint,
    omega arith,
    omega (
      arith,
      mod-eq-sub-mod {n = hint + (f + total - hint)} {m = total} (omega arith),
      mod-eq_of_lt {n = hint + (f + total - hint) - total} {m = total} (omega arith),
    ),
  )
  | no ge ↦ (
    f - hint,
    omega arith,
    omega (arith, mod-eq_of_lt {n = hint + (f - hint)} {m = total} (omega arith)),
  )
]

-- What `allocFrame` may answer: every frame is in use and nothing changes, or the first free frame
-- at or after the hint, round the end, is taken, and only that one.
pub data Outcome (p : Pmm) (r : Pmm × ℕ) : Type 0 where
  full : ((f : ℕ) → f < p.total_frames → is_used p f ≡ true) → r ≡ (p, u64_max) → Outcome p r
  claimed :
      (j f : ℕ)
      → f < p.total_frames
      → f ≡ (p.search_hint + j) % p.total_frames
      → ((k : ℕ) → k < j → is_used p ((p.search_hint + k) % p.total_frames) ≡ true)
      → is_used p f ≡ false
      → ((g : ℕ) → is_used r.0 g ≡ (if f == g then true else is_used p g))
      → IsValid r.0
      → r.0.total_frames ≡ p.total_frames
      → r.0.used_frames ≡ p.used_frames + 1
      → r.1 ≡ f * frame_size
      → Outcome p r

claim_counted :
    (p : Pmm) (f : ℕ)
    → IsValid p
    → f < p.total_frames
    → is_used p f ≡ false
    → (add64 p.used_frames 1 ≡ p.used_frames + 1)
      × (p.used_frames + 1 ≡ count_used (set_bit p.bitmap f) p.total_frames)
claim_counted p f v hf free =
    ground
      (arith, count_used-set_bit p.bitmap f p.total_frames, count_used-le p.bitmap p.total_frames)

-- The state and address that the search returns at a free frame.
abbrev claim_at : Pmm → ℕ → Pmm × ℕ
claim_at p f = (
  record p {
    bitmap = set_bit p.bitmap f;
    used_frames = add64 p.used_frames 1;
    search_hint = add64 f 1;
  },
  mul64 f frame_size,
)

claim_at-Outcome :
    (p : Pmm) (i f : ℕ)
    → IsValid p
    → f < p.total_frames
    → f ≡ (p.search_hint + i) % p.total_frames
    → ((k : ℕ) → k < i → is_used p ((p.search_hint + k) % p.total_frames) ≡ true)
    → is_used p f ≡ false
    → Outcome p (claim_at p f)
claim_at-Outcome p i f v hf e seen free =
    claimed i f hf e seen free (λ g. test_bit-set_bit p.bitmap f g (omega (arith, v.room)))
      (record {
        small = v.small;
        room = rw length-set_bit v.room;
        counted = omega (arith, claim_counted p f v hf free);
        hint_in = omega (arith, v.small);
      })
      refl (omega (arith, claim_counted p f v hf free)) (omega (arith, v.small))

alloc_loop-claims :
    (n i : ℕ) (p : Pmm) (f : ℕ)
    → add64 p.search_hint i % p.total_frames ≡ f
    → is_used p f ≡ false
    → alloc_loop (suc n) i p ≡ claim_at p f
unfolding alloc_loop
alloc_loop-claims n i p f e free = ground arith

alloc_loop-skips :
    (n i : ℕ) (p : Pmm) (f : ℕ)
    → add64 p.search_hint i % p.total_frames ≡ f
    → is_used p f ≡ true
    → alloc_loop (suc n) i p ≡ alloc_loop n (i + 1) p
unfolding alloc_loop
alloc_loop-skips n i p f e used = ground arith

alloc_loop-Outcome :
    (n i : ℕ) (p : Pmm)
    → IsValid p
    → i + n ≡ p.total_frames
    → ((k : ℕ) → k < i → is_used p ((p.search_hint + k) % p.total_frames) ≡ true)
    → Outcome p (alloc_loop n i p)
alloc_loop-Outcome zero i p v e seen = full all (unfold alloc_loop in refl)
  where
    all : (f : ℕ) → f < p.total_frames → is_used p f ≡ true
    all f hf =
        let (j, hj, ej) = probe_reaches p.search_hint p.total_frames f v.hint_in hf in
        rw (← ej) (seen j (omega arith))
alloc_loop-Outcome (suc n) i p v e seen = elim (Bool-cases (is_used p f)) [
  | inl used ↦
      rw (alloc_loop-skips n i p f probe used)
        (alloc_loop-Outcome n (i + 1) p v (omega arith) (seen_too used))
  | inr free ↦
      rw (alloc_loop-claims n i p f probe free)
        (claim_at-Outcome p i f v (mod-lt _ (omega arith)) refl seen free)
]
  where
    f : ℕ
    f = (p.search_hint + i) % p.total_frames

    no_wrap : add64 p.search_hint i ≡ p.search_hint + i
    no_wrap = omega (arith, v.small, v.hint_in)

    probe : add64 p.search_hint i % p.total_frames ≡ f
    probe = rw no_wrap

    seen_too :
        is_used p f ≡ true
        → (k : ℕ) → k < i + 1
        → is_used p ((p.search_hint + k) % p.total_frames) ≡ true
    seen_too used k h = elim (dec_lt k i) [
      | yes before ↦ seen k before
      | no not_before ↦ let same : k ≡ i = omega arith in rw same used
    ]

-- `allocFrame` does what `Outcome` says.
pub alloc_frame-Outcome : (p : Pmm) → IsValid p → Outcome p (alloc_frame p)
unfolding alloc_frame
alloc_frame-Outcome p v = alloc_loop-Outcome p.total_frames 0 p v (omega arith) (λ k h. elim h [ ])
