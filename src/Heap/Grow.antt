-- ===== src/Heap/Grow.antt =====
-- `growHeap` and `kmalloc` in src/mm/heap.cpp.
use weng_shi_os.Base.{
  ℕ, zero, suc, ◌+◌, ◌*◌, ◌/◌, ◌%◌, ◌^◌, ◌≤◌, ◌<◌, ◌≡◌, Bool, true, false, ltb, arith, refl, sym,
  subst, Bool-cases, inl, inr,
}
use weng_shi_os.Base.Word.{add64}
use weng_shi_os.Heap.{Heap, heap_start, heap_max_size, align_up, map_pages, grow_heap}

pub align16 :
    (v : ℕ)
    → v + 16 ≤ 2 ^ 64
    → (v ≤ align_up v 16) × (align_up v 16 % 16 ≡ 0) × (align_up v 16 < v + 16)
unfolding align_up
align16 v h = omega (arith, h)

pub align4096 :
    (v : ℕ)
    → v + 4096 ≤ 2 ^ 64
    → (v ≤ align_up v 4096) × (align_up v 4096 % 4096 ≡ 0) × (align_up v 4096 < v + 4096)
unfolding align_up
align4096 v h = omega (arith, h)

-- The end of the mapped memory moves up to a limit, and all the way if the pages were had.
pub record Grown {W : Type 0} (h : Heap) (bytes : ℕ) (r : (Heap × W) × Bool) : Type 0 where
  pub blocks : r.0.0.blocks ≡ h.blocks
  pub lower : h.mapped_end ≤ r.0.0.mapped_end
  pub upper : r.0.0.mapped_end ≤ h.mapped_end + bytes
  pub pages : r.0.0.mapped_end % 4096 ≡ h.mapped_end % 4096
  pub all : r.1 ≡ true → r.0.0.mapped_end ≡ h.mapped_end + bytes

module _ {W : Type 0} (map_page : W → ℕ → W × Bool) where
  page_had :
      (n : ℕ) (h : Heap) (w : W)
      → (map_page w h.mapped_end).1 ≡ true
      → map_pages map_page (suc n) h w
        ≡ map_pages map_page n
            (record h { mapped_end = add64 h.mapped_end 4096 })
            (map_page w h.mapped_end).0
  unfolding map_pages
  page_had n h w e = ground (arith, e)

  page_refused :
      (n : ℕ) (h : Heap) (w : W)
      → (map_page w h.mapped_end).1 ≡ false
      → map_pages map_page (suc n) h w ≡ ((h, (map_page w h.mapped_end).0), false)
  unfolding map_pages
  page_refused n h w e = ground (arith, e)

  no_page : (h : Heap) (w : W) → map_pages map_page 0 h w ≡ ((h, w), true)
  unfolding map_pages
  no_page h w = refl

  pub map_pages-Grown :
      (n : ℕ) (h : Heap) (w : W)
      → h.mapped_end + n * 4096 < 2 ^ 64
      → Grown h (n * 4096) (map_pages map_page n h w)
  map_pages-Grown zero h w top = subst (Grown h 0) (sym (no_page h w)) (record {
    blocks = refl;
    lower = omega arith;
    upper = omega arith;
    pages = refl;
    all = λ e. omega arith;
  })
  map_pages-Grown (suc n) h w top = elim (Bool-cases (map_page w h.mapped_end).1) [
    | inl e ↦
        let next : add64 h.mapped_end 4096 ≡ h.mapped_end + 4096 = omega (arith, top) in
        let g =
          map_pages-Grown n (record h { mapped_end = add64 h.mapped_end 4096 })
            (map_page w h.mapped_end).0 (omega (arith, top, next)) in
        subst (Grown h (suc n * 4096)) (sym (page_had n h w e)) (record {
          blocks = g.blocks;
          lower = omega (arith, g.lower, next);
          upper = omega (arith, g.upper, next);
          pages = omega (arith, g.pages, next);
          all = λ t. omega (arith, g.all t, next);
        })
    | inr e ↦ subst (Grown h (suc n * 4096)) (sym (page_refused n h w e)) (record {
      blocks = refl;
      lower = omega arith;
      upper = omega arith;
      pages = refl;
      all = λ t. absurd (ground (arith, t));
    })
  ]

  too_large :
      (h : Heap) (w : W) (m : ℕ)
      → ltb (heap_start + heap_max_size) (add64 h.mapped_end (align_up m 4096)) ≡ true
      → grow_heap map_page h w m ≡ ((h, w), false)
  unfolding grow_heap
  too_large h w m e = rw (e, grow_heap) refl

  in_limit :
      (h : Heap) (w : W) (m : ℕ)
      → ltb (heap_start + heap_max_size) (add64 h.mapped_end (align_up m 4096)) ≡ false
      → grow_heap map_page h w m ≡ map_pages map_page (align_up m 4096 / 4096) h w
  unfolding grow_heap
  in_limit h w m e = rw (e, grow_heap) refl

  -- What a call of `growHeap` leaves: the end moved up by at most the bytes that are needed, and
  -- not past the limit; and by all of them if the call succeeds.
  pub grow_heap-Grown :
      (h : Heap) (w : W) (m : ℕ)
      → m + 4096 ≤ 2 ^ 64
      → h.mapped_end + align_up m 4096 < 2 ^ 64
      → h.mapped_end ≤ heap_start + heap_max_size
      → Grown h (align_up m 4096) (grow_heap map_page h w m)
        × ((grow_heap map_page h w m).0.0.mapped_end ≤ heap_start + heap_max_size)
  grow_heap-Grown h w m small top bound =
      elim (Bool-cases (ltb (heap_start + heap_max_size) (add64 h.mapped_end (align_up m 4096)))) [
        | inl e ↦
            subst
              (λ r. Grown h (align_up m 4096) r × (r.0.0.mapped_end ≤ heap_start + heap_max_size))
              (sym (too_large h w m e))
              (
                record {
                  blocks = refl;
                  lower = omega arith;
                  upper = omega arith;
                  pages = refl;
                  all = λ t. absurd (ground (arith, t));
                },
                bound,
              )
        | inr e ↦
            let whole : align_up m 4096 / 4096 * 4096 ≡ align_up m 4096 =
              omega (arith, (align4096 m small).1) in
            let g : Grown h (align_up m 4096) (map_pages map_page (align_up m 4096 / 4096) h w) =
              subst (λ (n : ℕ). Grown h n (map_pages map_page (align_up m 4096 / 4096) h w)) whole
                (map_pages-Grown (align_up m 4096 / 4096) h w (omega (arith, whole, top))) in
            let limit : h.mapped_end + align_up m 4096 ≤ heap_start + heap_max_size =
              ground (arith, e, top) in
            subst
              (λ r. Grown h (align_up m 4096) r × (r.0.0.mapped_end ≤ heap_start + heap_max_size))
              (sym (in_limit h w m e)) (g, omega (arith, g.upper, limit))
      ]
