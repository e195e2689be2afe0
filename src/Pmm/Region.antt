-- ===== src/Pmm/Region.antt =====
-- Freeing and reserving frames in src/mm/pmm.cpp: single frames, regions and the initial state.
use weng_shi_os.Base.{
  ℕ, zero, suc, ◌+◌, ◌-◌, ◌/◌, ◌^◌, ◌≤◌, ◌<◌, ◌≡◌, ◌≢◌, refl, Bool, true, false, ltb, leb,
  if◌then◌else◌, arith, Bool-cases, dec_lt, inl, inr, ◌&&◌, ltb→lt, ◌∙◌, sym, ap,
}
use weng_shi_os.Base.Word.{u64_max, add64, sub64}
use weng_shi_os.Pmm.{
  Pmm, set_bit, clear_bit, alloc_frame, free_frame, release_frame, claim_frame, region_loop,
  mark_region_free, mark_region_used,
}
use weng_shi_os.Pmm.Bitmap.{
  count_used, count_used-le, count_used-set_bit, count_used-clear_bit, test_bit-set_bit,
  test_bit-clear_bit, length-set_bit, length-clear_bit, count_used_ext,
}
use weng_shi_os.Pmm.Alloc.{IsValid, is_used, Outcome, full, claimed, alloc_frame-Outcome}

-- `q` is `p` with the frames from `lo` up to `hi` set to `mark`, as far as there are frames.
pub record Marks (p q : Pmm) (lo hi : ℕ) (mark : Bool) : Type 0 where
  pub valid : IsValid q
  pub total : q.total_frames ≡ p.total_frames
  pub marks :
      (g : ℕ)
      → is_used q g ≡ (if leb lo g && (ltb g hi && ltb g p.total_frames) then mark else is_used p g)

release_frame-Marks :
    (p : Pmm) (f : ℕ) → IsValid p → f < p.total_frames → Marks p (release_frame p f) f (f + 1) false
unfolding release_frame
release_frame-Marks p f v hf = elim (Bool-cases (is_used p f)) [
  | inl used ↦
      rw (used, release_frame)
        (record {
          valid = record {
            small = v.small;
            room = rw length-clear_bit v.room;
            counted = counted used;
            hint_in = v.hint_in;
          };
          total = refl;
          marks = λ g. ground (arith, test_bit-clear_bit p.bitmap f g);
        })
  | inr free ↦
      rw (free, release_frame) (record { valid = v; total = refl; marks = λ g. ground arith })
]
  where
    counted :
        is_used p f ≡ true
        → sub64 p.used_frames 1 ≡ count_used (clear_bit p.bitmap f) p.total_frames
    counted used = ground (
      arith,
      count_used-clear_bit p.bitmap f p.total_frames,
      count_used-le p.bitmap p.total_frames,
    )

claim_frame-Marks :
    (p : Pmm) (f : ℕ) → IsValid p → f < p.total_frames → Marks p (claim_frame p f) f (f + 1) true
unfolding claim_frame
claim_frame-Marks p f v hf = elim (Bool-cases (is_used p f)) [
  | inl used ↦
      rw (used, claim_frame) (record { valid = v; total = refl; marks = λ g. ground arith })
  | inr free ↦
      rw (free, claim_frame)
        (record {
          valid = record {
            small = v.small;
            room = rw length-set_bit v.room;
            counted = counted free;
            hint_in = v.hint_in;
          };
          total = refl;
          marks = λ g. ground (arith, test_bit-set_bit p.bitmap f g);
        })
]
  where
    counted :
        is_used p f ≡ false → add64 p.used_frames 1 ≡ count_used (set_bit p.bitmap f) p.total_frames
    counted free =
        ground (
          arith,
          count_used-set_bit p.bitmap f p.total_frames,
          count_used-le p.bitmap p.total_frames,
        )

Marks-trans :
    {p q r : Pmm} {lo mid hi : ℕ} {mark : Bool}
    → lo ≤ mid
    → mid ≤ hi
    → Marks p q lo mid mark
    → Marks q r mid hi mark
    → Marks p r lo hi mark
Marks-trans h k a b = record {
  valid = b.valid;
  total = b.total ∙ a.total;
  marks = λ g. ground (arith, a.marks g, b.marks g, a.total);
}

module _ (body : Pmm → ℕ → Pmm) (mark : Bool)
    (step : (p : Pmm) (f : ℕ)
      → IsValid p
      → f < p.total_frames
      → Marks p (body p f) f (f + 1) mark) where
  region_loop-Marks :
      (n f hi : ℕ) (p : Pmm) → IsValid p → f + n ≡ hi → Marks p (region_loop body n f p) f hi mark
  unfolding region_loop
  region_loop-Marks zero f hi p v e = record { valid = v; total = refl; marks = λ g. ground arith }
  region_loop-Marks (suc n) f hi p v e = elim (Bool-cases (ltb f p.total_frames)) [
    | inl more ↦
        rw (more, region_loop)
          (Marks-trans (omega arith) (omega arith) (step p f v (ltb→lt _ _ more)) (
            region_loop-Marks n (f + 1) hi (body p f) (step p f v (ltb→lt _ _ more)).valid
              (omega arith)))
    | inr done ↦
        rw (done, region_loop) (record { valid = v; total = refl; marks = λ g. ground arith })
  ]

-- Where no round is left the two ends may be out of order, and nothing is marked.
Marks-empty :
    {p q : Pmm} {lo hi : ℕ} {mark : Bool} → hi ≤ lo → Marks p q lo lo mark → Marks p q lo hi mark
Marks-empty h a = record {
  valid = a.valid;
  total = a.total;
  marks = λ g. ground (arith, a.marks g);
}

region_loop-range :
    (body : Pmm → ℕ → Pmm) (mark : Bool)
    → ((p : Pmm) (f : ℕ) → IsValid p → f < p.total_frames → Marks p (body p f) f (f + 1) mark)
    → (lo hi : ℕ) (p : Pmm) → IsValid p
    → Marks p (region_loop body (hi - lo) lo p) lo hi mark
region_loop-range body mark step lo hi p v = elim (dec_lt lo hi) [
  | yes h ↦ region_loop-Marks body mark step (hi - lo) lo hi p v (omega arith)
  | no h ↦
      let none_left : hi - lo ≡ 0 = omega arith in
      rw none_left
        (Marks-empty (omega arith) (region_loop-Marks body mark step 0 lo lo p v (omega arith)))
]

-- `markRegionFree` frees exactly the frames from `base / 4096` up to `(base + length) / 4096`, as
-- far as they exist, and keeps the invariant, if `base + length` does not wrap.
pub mark_region_free-Marks :
    (p : Pmm) (base len : ℕ)
    → IsValid p
    → base + len < 2 ^ 64
    → Marks p (mark_region_free p base len) (base / 4096) ((base + len) / 4096) false
unfolding mark_region_free
mark_region_free-Marks p base len v h =
    let exact : add64 base len ≡ base + len = omega arith in
    rw (exact, mark_region_free) (region_loop-range release_frame false release_frame-Marks _ _ p v)

-- In a valid state, where `base + length + 4096` is below 2 ^ 64, `markRegionUsed` reserves exactly
-- the frames from `base / 4096` up to `(base + length)` divided by 4096 and rounded up, that one
-- excluded, and keeps the invariant. Those are the frames that hold a byte of the region if its
-- length is not 0; for a length of 0 it is the frame of a base inside a page, and none otherwise.
pub mark_region_used-Marks :
    (p : Pmm) (base len : ℕ)
    → IsValid p
    → base + len + 4096 < 2 ^ 64
    → Marks p (mark_region_used p base len) (base / 4096) ((base + len + 4095) / 4096) true
unfolding mark_region_used
mark_region_used-Marks p base len v h =
    let exact : sub64 (add64 (add64 base len) 4096) 1 ≡ base + len + 4095 = omega arith in
    rw (exact, mark_region_used) (region_loop-range claim_frame true claim_frame-Marks _ _ p v)

-- `freeFrame` frees the frame of its address and no other, and ignores an address past the end.
pub free_frame-Marks :
    (p : Pmm) (address : ℕ)
    → IsValid p
    → Marks p (free_frame p address) (address / 4096) (address / 4096 + 1) false
unfolding free_frame
free_frame-Marks p address v = elim (Bool-cases (ltb (address / 4096) p.total_frames)) [
  | inl inside ↦ rw (inside, free_frame) (release_frame-Marks p _ v (ltb→lt _ _ inside))
  | inr outside ↦
      rw (outside, free_frame) (record { valid = v; total = refl; marks = λ g. ground arith })
]

restored :
    {p : Pmm} {r : Pmm × ℕ}
    → IsValid p
    → Outcome p r
    → r.1 ≢ u64_max
    → ((g : ℕ) → is_used (free_frame r.0 r.1) g ≡ is_used p g)
      × ((free_frame r.0 r.1).used_frames ≡ p.used_frames)
restored v (full _ e) ok = absurd (ok (ap (λ (r : Pmm × ℕ). r.1) e))
restored {p} {r} v (claimed j f hf _ _ free taken valid total _ address) ok =
    (same, freed.valid.counted ∙ counts ∙ sym v.counted)
  where
    freed : Marks r.0 (free_frame r.0 r.1) (r.1 / 4096) (r.1 / 4096 + 1) false
    freed = free_frame-Marks r.0 r.1 valid

    same : (g : ℕ) → is_used (free_frame r.0 r.1) g ≡ is_used p g
    same g =
        let f-eq : r.1 / 4096 ≡ f = omega arith in
        ground (arith, freed.marks g, taken g, f-eq, free, hf, total)

    counts :
        count_used (free_frame r.0 r.1).bitmap (free_frame r.0 r.1).total_frames
        ≡ count_used p.bitmap p.total_frames
    counts =
        ap (λ (n : ℕ). count_used (free_frame r.0 r.1).bitmap n) (freed.total ∙ total)
        ∙ count_used_ext (free_frame r.0 r.1).bitmap p.bitmap p.total_frames same

-- A frame that `allocFrame` handed out and that `freeFrame` takes back leaves the same frames in
-- use and the same count as before.
pub free_frame-alloc_frame :
    (p : Pmm)
    → IsValid p
    → (alloc_frame p).1 ≢ u64_max
    → let (q, address) = alloc_frame p in
      let r = free_frame q address in
      ((g : ℕ) → is_used r g ≡ is_used p g) × (r.used_frames ≡ p.used_frames)
free_frame-alloc_frame p v ok = restored v (alloc_frame-Outcome p v) ok
