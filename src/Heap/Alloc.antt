-- ===== src/Heap/Alloc.antt =====
-- `kmalloc` in src/mm/heap.cpp, with the growth of the heap.
use weng_shi_os.Base.{
  ℕ, suc, ◌+◌, ◌%◌, ◌^◌, ◌≤◌, ◌<◌, ◌≡◌, ◌≢◌, Bool, true, false, List, [], ◌∷◌, ◌++◌, none, some,
  arith, refl, ap, ◌∙◌, sym, subst, Bool-cases, inl, inr,
}
use weng_shi_os.Heap.{
  Block, Heap, heap_start, heap_max_size, align_up, take_fit, grow_heap, grow_amount, fresh_block,
  append_block, kmalloc,
}
use weng_shi_os.Heap.Chain.{Chain, Chain-upper, IsValid, used}
use weng_shi_os.Heap.Malloc.{Fit, nothing, taken, NoFit, take_fit-Fit}
use weng_shi_os.Heap.Grow.{Grown, grow_heap-Grown, align16, align4096}
use weng_shi_os.Heap.Extend.{
  handed, refused, Returns, NoFit-last, fresh_block-size, extended-IsValid, extended-used,
  none_cases, Fit-some, align_up-same, Returns-used,
}

append_block-some :
    (bs : List Block) (fresh : Block) → bs ≢ [] → append_block bs fresh ≡ some (bs ++ fresh ∷ [])
unfolding append_block
append_block-some [] fresh ne = absurd (ne refl)
append_block-some (b ∷ bs) fresh ne = refl

module _ {W : Type 0} (map_page : W → ℕ → W × Bool) where
  kmalloc_found :
      (fuel : ℕ) (h : Heap) (w : W) (asked : ℕ) (bs : List Block) (p : ℕ)
      → asked ≢ 0
      → take_fit (align_up asked 16) h.blocks ≡ some (bs, p)
      → kmalloc map_page (suc fuel) h w asked ≡ some ((record h { blocks = bs }, w), p)
  unfolding kmalloc
  kmalloc_found fuel h w asked bs p ne e = ground (arith, e)

  kmalloc_full :
      (fuel : ℕ) (h : Heap) (w : W) (asked : ℕ)
      → asked ≢ 0
      → take_fit (align_up asked 16) h.blocks ≡ none
      → (grow_heap map_page h w (grow_amount (align_up asked 16))).1 ≡ false
      → kmalloc map_page (suc fuel) h w asked
        ≡ some ((grow_heap map_page h w (grow_amount (align_up asked 16))).0, 0)
  unfolding kmalloc
  kmalloc_full fuel h w asked ne e g = ground (arith, e, g)

  grown_heap : Heap → W → ℕ → Heap
  grown_heap h w size =
      let h' = (grow_heap map_page h w (grow_amount size)).0.0 in
      record h' { blocks = h'.blocks ++ fresh_block h h' ∷ [] }

  kmalloc_again :
      (fuel : ℕ) (h : Heap) (w : W) (asked : ℕ)
      → asked ≢ 0
      → take_fit (align_up asked 16) h.blocks ≡ none
      → (grow_heap map_page h w (grow_amount (align_up asked 16))).1 ≡ true
      → (grow_heap map_page h w (grow_amount (align_up asked 16))).0.0.blocks ≢ []
      → kmalloc map_page (suc fuel) h w asked
        ≡ kmalloc map_page fuel
            (grown_heap h w (align_up asked 16))
            (grow_heap map_page h w (grow_amount (align_up asked 16))).0.1
            (align_up asked 16)
  unfolding kmalloc grown_heap
  kmalloc_again fuel h w asked ne e g begun =
      let h' = (grow_heap map_page h w (grow_amount (align_up asked 16))).0.0 in
      ground (arith, e, g, append_block-some h'.blocks (fresh_block h h') begun)

  found_Returns :
      (fuel : ℕ) (h : Heap) (w : W) (asked : ℕ)
      → 0 < asked
      → asked ≤ 2 ^ 29 + 16
      → IsValid h
      → take_fit (align_up asked 16) h.blocks ≢ none
      → Fit
          (align_up asked 16)
          heap_start
          h.mapped_end
          h.blocks
          (take_fit (align_up asked 16) h.blocks)
      → Returns h asked (kmalloc map_page (suc fuel) h w asked)
  found_Returns fuel h w asked pos small v fits (nothing unfit e) = absurd (fits e)
  found_Returns fuel h w asked pos small v fits (taken bs' p n before after r c u u' le) =
      subst (Returns h asked)
        (sym (kmalloc_found fuel h w asked bs' p (λ z. omega (arith, z, pos)) r))
        (
          record { chain = c; pages = v.pages; bounded = v.bounded },
          handed n before after (omega (arith, le, align16 asked)) u u',
        )

  -- What the call finds when the heap has grown.
  heap_growth :
      (h : Heap) (w : W) (size : ℕ)
      → IsValid h
      → size ≤ 2 ^ 29 + 16
      → Grown h (align_up (grow_amount size) 4096) (grow_heap map_page h w (grow_amount size))
        × ((grow_heap map_page h w (grow_amount size)).0.0.mapped_end ≤ heap_start + heap_max_size)
        × (size + 32 ≤ align_up (grow_amount size) 4096)
        × (align_up (grow_amount size) 4096 % 4096 ≡ 0)
  heap_growth h w size v small =
      let amount : (size + 32 ≤ grow_amount size) × (grow_amount size < 2 ^ 29 + 5000) =
        (ground (arith, small), ground (arith, small)) in
      let al = align4096 (grow_amount size) (omega (arith, amount.1)) in
      let g =
        grow_heap-Grown map_page h w (grow_amount size) (omega (arith, amount.1))
          (omega (arith, amount.1, al.2, v.bounded)) v.bounded in
      (g.0, g.1, omega (arith, amount.0, al.0), al.1)

  grown_heap-IsValid :
      (h : Heap) (w : W) (size : ℕ)
      → IsValid h
      → size ≤ 2 ^ 29 + 16
      → (grow_heap map_page h w (grow_amount size)).1 ≡ true
      → IsValid (grown_heap h w size)
        × (used (grown_heap h w size).blocks ≡ used h.blocks)
        × ¬ NoFit size (grown_heap h w size).blocks
  unfolding grown_heap
  grown_heap-IsValid h w size v small t =
      let h' = (grow_heap map_page h w (grow_amount size)).0.0 in
      let bytes = align_up (grow_amount size) 4096 in
      let (g, bound, fits, pages) = heap_growth h w size v small in
      let s = fresh_block-size h h' bytes (g.all t) (omega (arith, fits)) (omega (arith, bound)) in
      (
        extended-IsValid h h' bytes v g.blocks (g.all t) bound pages (omega (arith, fits)),
        extended-used h h' g.blocks,
        λ unfit.
            absurd (ground (arith, NoFit-last h'.blocks (fresh_block h h') size unfit, s, fits)),
      )

  search-Fit :
      (h : Heap) (asked : ℕ)
      → asked ≤ 2 ^ 29 + 16
      → IsValid h
      → Fit
          (align_up asked 16)
          heap_start
          h.mapped_end
          h.blocks
          (take_fit (align_up asked 16) h.blocks)
  search-Fit h asked small v =
      let al = align16 asked (omega (arith, small)) in
      take_fit-Fit h.blocks (align_up asked 16) heap_start h.mapped_end (omega (arith, al.2, small))
        (omega (arith, v.bounded)) al.1 v.chain

  full_Returns :
      (fuel : ℕ) (h : Heap) (w : W) (asked : ℕ)
      → 0 < asked
      → asked ≤ 2 ^ 29
      → IsValid h
      → take_fit (align_up asked 16) h.blocks ≡ none
      → (grow_heap map_page h w (grow_amount (align_up asked 16))).1 ≡ false
      → Returns h asked (kmalloc map_page (suc fuel) h w asked)
  full_Returns fuel h w asked pos small v e t =
      let size = align_up asked 16 in
      let (g, bound, fits, pages) =
        heap_growth h w size v (omega (arith, small, (align16 asked (omega (arith, small))).2)) in
      let h' = (grow_heap map_page h w (grow_amount size)).0.0 in
      subst (Returns h asked) (sym (kmalloc_full fuel h w asked (λ z. omega (arith, z, pos)) e t)) (
        record {
          chain =
              subst (Chain heap_start h'.mapped_end) (sym g.blocks)
                (Chain-upper h.blocks heap_start h.mapped_end h'.mapped_end g.lower v.chain);
          pages = omega (arith, g.pages, v.pages);
          bounded = bound;
        },
        refused refl (ap used g.blocks),
      )

  again_Returns :
      (fuel : ℕ) (h : Heap) (w : W) (asked : ℕ)
      → 0 < asked
      → asked ≤ 2 ^ 29
      → IsValid h
      → take_fit (align_up asked 16) h.blocks ≡ none
      → (grow_heap map_page h w (grow_amount (align_up asked 16))).1 ≡ true
      → h.blocks ≢ []
      → Returns h asked (kmalloc map_page (suc (suc fuel)) h w asked)
  again_Returns fuel h w asked pos small v e t begun =
      let size = align_up asked 16 in
      let al = align16 asked (omega (arith, small)) in
      let same : align_up size 16 ≡ size = align_up-same size al.1 (omega (arith, al.2, small)) in
      let (g, bound, large, pages) = heap_growth h w size v (omega (arith, small, al.2)) in
      let (v', u, fits) = grown_heap-IsValid h w size v (omega (arith, small, al.2)) t in
      let w' = (grow_heap map_page h w (grow_amount size)).0.1 in
      let fit = search-Fit (grown_heap h w size) size (omega (arith, al.2, small)) v' in
      subst (Returns h asked)
        (sym (
          kmalloc_again (suc fuel) h w asked (λ z. omega (arith, z, pos)) e t
            (λ empty. begun (sym g.blocks ∙ empty))))
        (Returns-used h (grown_heap h w size) asked size
          (kmalloc map_page (suc fuel) (grown_heap h w size) w' size) al.0 u
          (found_Returns fuel (grown_heap h w size) w' size (omega (arith, al.0, pos))
            (omega (arith, al.2, small)) v'
            (Fit-some fit
              (subst (λ (n : ℕ). ¬ NoFit n (grown_heap h w size).blocks) (sym same) fits))
            fit))

  -- On fuel 2, a request of 1 to 2 ^ 29 bytes in a valid heap that has a block returns, whatever the mapping of pages
  -- answers, and the heap stays valid: either a range with at least the size that was asked for,
  -- which starts at the pointer, is handed out in addition to those before, which stay as they were;
  -- or the pointer is null and the same ranges are handed out as before.
  pub kmalloc-Returns :
      (fuel : ℕ) (h : Heap) (w : W) (asked : ℕ)
      → IsValid h
      → 0 < asked
      → asked ≤ 2 ^ 29
      → h.blocks ≢ []
      → Returns h asked (kmalloc map_page (suc (suc fuel)) h w asked)
  kmalloc-Returns fuel h w asked v pos small begun =
      let grown = (grow_heap map_page h w (grow_amount (align_up asked 16))).1 in
      let fit = search-Fit h asked (omega (arith, small)) v in
      elim (none_cases (take_fit (align_up asked 16) h.blocks)) [
        | inl e ↦ elim (Bool-cases grown) [
          | inl t ↦ again_Returns fuel h w asked pos small v e t begun
          | inr t ↦ full_Returns (suc fuel) h w asked pos small v e t
        ]
        | inr fits ↦ found_Returns (suc fuel) h w asked pos (omega (arith, small)) v fits fit
      ]
