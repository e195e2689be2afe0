-- ===== src/Heap/Totals.antt =====
-- `init`, `totalAllocated` and `totalFree` in src/mm/heap.cpp, and a block that comes and goes.
use weng_shi_os.Base.{
  ℕ, suc, ◌+◌, ◌^◌, ◌≤◌, ◌<◌, ◌≡◌, ◌≢◌, Bool, not, List, [], ◌∷◌, some, arith, ◌∙◌, sym, subst,
  Bool-cases, inl, inr,
}
use weng_shi_os.Heap.{Block, Heap, heap_start, kmalloc, kfree, total, total_allocated, total_free}
use weng_shi_os.Heap.Chain.{Chain, Chain-le, IsValid, used}
use weng_shi_os.Heap.Extend.{Returns, Handed, handed, refused}
use weng_shi_os.Heap.Alloc.{kmalloc-Returns}
use weng_shi_os.Heap.Free.{kfree-IsValid}

-- The two loops over a chain add up to no more than the memory it spans.
total-le :
    (bs : List Block) (k lo hi s t : ℕ)
    → Chain lo hi bs
    → k + s + t ≤ lo
    → hi < 2 ^ 64
    → k + total (λ b. not b.free) s bs + total (λ b. b.free) t bs ≤ hi
unfolding total
total-le [] k lo hi s t c le top = omega (arith, c, le)
total-le (b ∷ bs) k lo hi s t c le top =
    let end : b.at + 32 + b.size ≤ hi = Chain-le bs (b.at + 32 + b.size) hi c.3 in
    elim (Bool-cases b.free) [
      | inl e ↦ ground (
        arith,
        e,
        total-le bs k (b.at + 32 + b.size) hi s (t + b.size) c.3 (omega (arith, le, c.0)) top,
        end,
        le,
        c.0,
        top,
      )
      | inr e ↦ ground (
        arith,
        e,
        total-le bs k (b.at + 32 + b.size) hi (s + b.size) t c.3 (omega (arith, le, c.0)) top,
        end,
        le,
        c.0,
        top,
      )
    ]

-- In a valid heap, the bytes that `totalAllocated` and `totalFree` report fit together into the
-- memory that is mapped for the heap.
pub totals_bounded :
    (h : Heap) → IsValid h → heap_start + total_allocated h + total_free h ≤ h.mapped_end
unfolding total_allocated total_free
totals_bounded h v =
    total-le h.blocks heap_start heap_start h.mapped_end 0 0 v.chain (omega arith)
      (omega (arith, v.bounded))

module _ {W : Type 0} (map_page : W → ℕ → W × Bool) where
  undone :
      (h h' : Heap) (asked p : ℕ)
      → p ≢ 0
      → IsValid h'
      → Handed h asked h' p
      → (h'' : Heap) × (kfree h' p ≡ some h'') × IsValid h'' × (used h''.blocks ≡ used h.blocks)
  undone h h' asked p z v (refused e u) = absurd (z e)
  undone h h' asked p z v (handed n before after le u u') =
      let (h'', e, v', w, m) = kfree-IsValid h' p n before after v u' in (h'', e, v', w ∙ sym u)

  -- On fuel 2, where `kmalloc` of 1 to 2 ^ 29 bytes in a valid heap that has a block gives a
  -- pointer that is not null, `kfree` of that pointer succeeds, leaves a valid heap, and exactly
  -- the ranges are handed out that were before.
  pub kfree-kmalloc :
      (fuel : ℕ) (h h' : Heap) (w w' : W) (asked p : ℕ)
      → IsValid h
      → 0 < asked
      → asked ≤ 2 ^ 29
      → kmalloc map_page (suc (suc fuel)) h w asked ≡ some ((h', w'), p)
      → p ≢ 0
      → h.blocks ≢ []
      → (h'' : Heap) × (kfree h' p ≡ some h'') × IsValid h'' × (used h''.blocks ≡ used h.blocks)
  kfree-kmalloc fuel h h' w w' asked p v pos small e z begun =
      let (v', hands) =
        subst (Returns h asked) e (kmalloc-Returns map_page fuel h w asked v pos small begun) in
      undone h h' asked p z v' hands
