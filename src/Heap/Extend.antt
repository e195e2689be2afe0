-- ===== src/Heap/Extend.antt =====
-- The block that a grown heap gets in `kmalloc` of src/mm/heap.cpp.
use weng_shi_os.Base.{
  ℕ, ◌+◌, ◌-◌, ◌%◌, ◌^◌, ◌≤◌, ◌<◌, ◌≡◌, ◌≢◌, false, ◌&&◌, leb, List, [], ◌∷◌, ◌++◌, Option, none,
  some, arith, refl, ◌∙◌, ap, sym, subst, inl, inr, ◌⊎◌,
}
use mathlib.Core.List.{append-nil}
use weng_shi_os.Heap.{Block, Heap, heap_start, heap_max_size, align_up, fresh_block}
use weng_shi_os.Heap.Chain.{Chain, Chain-append, IsValid, used, used-append}
use weng_shi_os.Heap.Malloc.{Fit, nothing, taken, NoFit}

-- How a call of `kmalloc` that returns ends: with a null pointer, and nothing more handed out; or
-- with one range more, which starts at the pointer and has the size.
pub data Handed (h : Heap) (asked : ℕ) (h' : Heap) (p : ℕ) : Type 0 where
  refused : p ≡ 0 → used h'.blocks ≡ used h.blocks → Handed h asked h' p
  handed :
      (n : ℕ) (before after : List (ℕ × ℕ))
      → asked ≤ n
      → used h.blocks ≡ before ++ after
      → used h'.blocks ≡ before ++ (p, n) ∷ after
      → Handed h asked h' p

-- The call returns, in a valid heap, and as `Handed` says.
abbrev pub Returns : {W : Type 0} → Heap → ℕ → Option ((Heap × W) × ℕ) → Type 0
Returns h asked none = ⊥
Returns h asked (some ((h', w'), p)) = IsValid h' × Handed h asked h' p

pub NoFit-last :
    (xs : List Block) (b : Block) (size : ℕ)
    → NoFit size (xs ++ b ∷ [])
    → (b.free && leb size b.size) ≡ false
NoFit-last [] b size u = u.0
NoFit-last (x ∷ xs) b size u = NoFit-last xs b size u.1

-- A heap that grew by `bytes`, with its new block behind the tail.
abbrev pub extended : Heap → Heap → Heap
extended h h' = record h' { blocks = h'.blocks ++ fresh_block h h' ∷ [] }

pub fresh_block-size :
    (h h' : Heap) (bytes : ℕ)
    → h'.mapped_end ≡ h.mapped_end + bytes
    → 32 ≤ bytes
    → h'.mapped_end < 2 ^ 64
    → (fresh_block h h').size ≡ bytes - 32
fresh_block-size h h' bytes e le top = omega (arith, e, le, top)

pub extended-IsValid :
    (h h' : Heap) (bytes : ℕ)
    → IsValid h
    → h'.blocks ≡ h.blocks
    → h'.mapped_end ≡ h.mapped_end + bytes
    → h'.mapped_end ≤ heap_start + heap_max_size
    → bytes % 4096 ≡ 0
    → 32 ≤ bytes
    → IsValid (extended h h')
extended-IsValid h h' bytes v same e bound pages le =
    let size = fresh_block-size h h' bytes e le (omega (arith, bound)) in
    let fresh_chain : Chain h.mapped_end h'.mapped_end (fresh_block h h' ∷ []) = (
      omega arith,
      omega (arith, v.pages),
      omega (arith, size, pages, le),
      omega (arith, size, e, le),
    ) in
    record {
      chain =
          Chain-append h'.blocks (fresh_block h h' ∷ []) heap_start h.mapped_end h'.mapped_end
            (subst (Chain heap_start h.mapped_end) (sym same) v.chain) fresh_chain;
      pages = omega (arith, e, pages, v.pages);
      bounded = bound;
    }

pub extended-used :
    (h h' : Heap) → h'.blocks ≡ h.blocks → used (extended h h').blocks ≡ used h.blocks
extended-used h h' same =
    used-append h'.blocks (fresh_block h h' ∷ []) ∙ append-nil (used h'.blocks) ∙ ap used same

pub none_cases : {A : Type 0} (r : Option A) → (r ≡ none) ⊎ (r ≢ none)
none_cases none = inl refl
none_cases (some x) = inr (λ e. ground (arith, e))

pub Fit-some :
    {size lo hi : ℕ} {bs : List Block} {r : Option (List Block × ℕ)}
    → Fit size lo hi bs r
    → ¬ NoFit size bs
    → r ≢ none
Fit-some (nothing unfit e) fits = λ z. fits unfit
Fit-some (taken bs' p n before after e c u u' le) fits = λ z. ground (arith, e, z)

pub align_up-same : (n : ℕ) → n % 16 ≡ 0 → n < 2 ^ 30 → align_up n 16 ≡ n
unfolding align_up
align_up-same n e h = omega (arith, e, h)

-- What was handed out counts from any heap with the same ranges.
pub Returns-used :
    {W : Type 0} (h g : Heap) (asked size : ℕ) (r : Option ((Heap × W) × ℕ))
    → asked ≤ size
    → used g.blocks ≡ used h.blocks
    → Returns g size r
    → Returns h asked r
Returns-used h g asked size none le u a = a
Returns-used h g asked size (some ((h', w'), p)) le u (v, refused z e) = (v, refused z (e ∙ u))
Returns-used h g asked size (some ((h', w'), p)) le u (v, handed n before after l e e') =
    (v, handed n before after (omega (arith, le, l)) (sym u ∙ e) e')
