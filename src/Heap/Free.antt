-- ===== src/Heap/Free.antt =====
-- `kfree` in src/mm/heap.cpp: the block of the pointer is found, and merged with its free
-- neighbours.
use weng_shi_os.Base.{
  ℕ, ◌+◌, ◌-◌, ◌^◌, ◌<◌, ◌≡◌, true, List, [], ◌∷◌, ◌++◌, some, arith, refl, ◌∙◌, ap, ap₂, sym,
  subst,
}
use weng_shi_os.Heap.{Block, Heap, heap_start, find_block, relink, merge_next, merge_prev, kfree}
use weng_shi_os.Heap.Chain.{Chain, IsValid, used}
use weng_shi_os.Heap.Find.{Chain-parts, Around, find_range, found}
use weng_shi_os.Heap.Merge.{merge_next-Merged, merge_prev-Rejoined}

-- The front and the back of the block that is freed.
kfree_at :
    (h : Heap) (ptr at : ℕ) (b : Block) (r cs : List Block)
    → ptr ≡ at + 32
    → find_block [] at h.blocks ≡ some (r, b, cs)
    → kfree h ptr
      ≡ some (record h {
        blocks =
            merge_prev r
              (merge_next (record b { free = true }) cs).0
              (merge_next (record b { free = true }) cs).1;
      })
unfolding kfree
kfree_at h ptr at b r cs e f =
    let back : ptr - 32 ≡ at = omega (arith, e) in ground (arith, back, f, e)

-- `kfree` of a pointer that is handed out succeeds. It takes that range and no other from those
-- handed out, and the heap stays valid.
pub kfree-IsValid :
    (h : Heap) (p n : ℕ) (before after : List (ℕ × ℕ))
    → IsValid h
    → used h.blocks ≡ before ++ (p, n) ∷ after
    → (h' : Heap) × (kfree h p ≡ some h')
      × IsValid h'
      × (used h'.blocks ≡ before ++ after)
      × (h'.mapped_end ≡ h.mapped_end)
unfolding relink
kfree-IsValid h p n before after v u =
    let a : Around h.blocks before after p n = find_range h.blocks before after p n u in
    let chain : Chain heap_start h.mapped_end (a.front ++ a.block ∷ a.behind) =
      subst (Chain heap_start h.mapped_end) a.parts v.chain in
    let (r, e, z) = found a.front [] a.behind a.block heap_start h.mapped_end chain in
    let (mid, c, d) = Chain-parts a.front (a.block ∷ a.behind) heap_start h.mapped_end chain in
    let top : h.mapped_end < 2 ^ 64 = omega (arith, v.bounded) in
    let (d', f', u') =
      merge_next-Merged (record a.block { free = true }) a.behind mid h.mapped_end top refl d in
    let (c', w) =
      merge_prev-Rejoined r _ _ heap_start mid h.mapped_end top f'
        (subst (Chain heap_start mid) (sym z) c) d' in
    (
      record h {
        blocks =
            merge_prev r (merge_next (record a.block { free = true }) a.behind).0
              (merge_next (record a.block { free = true }) a.behind).1;
      },
      kfree_at h p a.block.at a.block r a.behind (sym a.address)
          (ap (find_block [] a.block.at) a.parts ∙ e),
      record { chain = c'; pages = v.pages; bounded = v.bounded },
      w ∙ ap₂ (λ us ws. us ++ ws) (ap used z ∙ a.before) (u' ∙ a.after),
      refl,
    )
