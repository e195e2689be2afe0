-- ===== src/Heap/Granted.antt =====
-- The memory that `kmalloc` of src/mm/heap.cpp hands out: where it stands beside the rest.
use weng_shi_os.Base.{
  ℕ, suc, ◌+◌, ◌%◌, ◌^◌, ◌≤◌, ◌<◌, ◌≡◌, ◌≢◌, ◌⊎◌, inl, inr, Bool, List, [], ◌∷◌, ◌++◌, some, arith,
  sym, subst, Bool-cases,
}
use weng_shi_os.Heap.{Block, Heap, heap_start, kmalloc}
use weng_shi_os.Heap.Chain.{Chain, IsValid, used, used_free, used_taken}
use weng_shi_os.Heap.Extend.{Returns, Handed, handed, refused}
use weng_shi_os.Heap.Alloc.{kmalloc-Returns}

-- Ranges in the order of their addresses, between two bounds, so that no two of them meet.
abbrev Ordered : ℕ → ℕ → List (ℕ × ℕ) → Type 0
Ordered lo hi [] = lo ≤ hi
Ordered lo hi ((p, n) ∷ rs) = (lo ≤ p) × (p % 16 ≡ 0) × Ordered (p + n) hi rs

Ordered-lower :
    (rs : List (ℕ × ℕ)) (lo lo' hi : ℕ) → lo' ≤ lo → Ordered lo hi rs → Ordered lo' hi rs
Ordered-lower [] lo lo' hi h c = omega arith
Ordered-lower ((p, n) ∷ rs) lo lo' hi h c = (omega (arith, c.0), c.1, c.2)

Ordered-le : (rs : List (ℕ × ℕ)) (lo hi : ℕ) → Ordered lo hi rs → lo ≤ hi
Ordered-le [] lo hi c = c
Ordered-le ((p, n) ∷ rs) lo hi c = omega (arith, c.0, Ordered-le rs (p + n) hi c.2)

Chain-Ordered : (bs : List Block) (lo hi : ℕ) → Chain lo hi bs → Ordered lo hi (used bs)
Chain-Ordered [] lo hi c = c
Chain-Ordered (b ∷ bs) lo hi c =
    let rest : Ordered (b.at + 32 + b.size) hi (used bs) =
      Chain-Ordered bs (b.at + 32 + b.size) hi c.3 in
    elim (Bool-cases b.free) [
      | inl e ↦
          subst (Ordered lo hi) (sym (used_free b bs e))
            (Ordered-lower (used bs) (b.at + 32 + b.size) lo hi (omega (arith, c.0)) rest)
      | inr e ↦
          subst (Ordered lo hi) (sym (used_taken b bs e))
            (omega (arith, c.0), omega (arith, c.1), rest)
    ]

-- The `n` bytes from `p` on share no byte with any of the ranges.
abbrev pub AllClear : ℕ → ℕ → List (ℕ × ℕ) → Type 0
AllClear p n [] = Unit {0}
AllClear p n ((q, m) ∷ rs) = ((q + m ≤ p) ⊎ (p + n ≤ q)) × AllClear p n rs

all_behind : (rs : List (ℕ × ℕ)) (lo hi p n : ℕ) → p + n ≤ lo → Ordered lo hi rs → AllClear p n rs
all_behind [] lo hi p n h c = tt
all_behind ((q, m) ∷ rs) lo hi p n h c =
    (inr (omega (arith, h, c.0)), all_behind rs (q + m) hi p n (omega (arith, h, c.0)) c.2)

-- A range among others in order.
among :
    (before after : List (ℕ × ℕ)) (lo hi p n : ℕ)
    → Ordered lo hi (before ++ (p, n) ∷ after)
    → (lo ≤ p) × (p % 16 ≡ 0) × (p + n ≤ hi) × AllClear p n (before ++ after)
among [] after lo hi p n c =
    (c.0, c.1, Ordered-le after (p + n) hi c.2, all_behind after (p + n) hi p n (omega arith) c.2)
among ((q, m) ∷ before) after lo hi p n c =
    let (low, aligned, high, clear) = among before after (q + m) hi p n c.2 in
    (omega (arith, c.0, low), aligned, high, (inl low, clear))

-- Memory of at least the size, aligned to 16 bytes, inside the mapped heap, that shares no byte with
-- what was handed out before.
pub record Granted (h h' : Heap) (asked p : ℕ) : Type 0 where
  pub size : ℕ
  pub enough : asked ≤ size
  pub aligned : p % 16 ≡ 0
  pub from_start : heap_start ≤ p
  pub inside : p + size ≤ h'.mapped_end
  pub clear : AllClear p size (used h.blocks)

granted :
    (h h' : Heap) (asked p : ℕ) → p ≢ 0 → IsValid h' → Handed h asked h' p → Granted h h' asked p
granted h h' asked p z v (refused e u) = absurd (z e)
granted h h' asked p z v (handed n before after le u u') =
    let (low, aligned, high, clear) = among before after heap_start h'.mapped_end p n (
      subst (Ordered heap_start h'.mapped_end) u'
        (Chain-Ordered h'.blocks heap_start h'.mapped_end v.chain)) in
    record {
      size = n;
      enough = le;
      aligned = aligned;
      from_start = low;
      inside = high;
      clear = subst (AllClear p n) (sym u) clear;
    }

-- On fuel 2, where `kmalloc` of 1 to 2 ^ 29 bytes in a valid heap that has a block gives a pointer
-- that is not null, at least that many bytes from the pointer on lie inside the mapped heap and
-- share none with a range that was handed out before, and the pointer is a multiple of 16.
pub kmalloc-Granted :
    {W : Type 0} (map_page : W → ℕ → W × Bool) (fuel : ℕ) (h h' : Heap) (w w' : W) (asked p : ℕ)
    → IsValid h
    → 0 < asked
    → asked ≤ 2 ^ 29
    → kmalloc map_page (suc (suc fuel)) h w asked ≡ some ((h', w'), p)
    → p ≢ 0
    → h.blocks ≢ []
    → Granted h h' asked p
kmalloc-Granted map_page fuel h h' w w' asked p v pos small e z begun =
    let (v', hands) =
      subst (Returns h asked) e (kmalloc-Returns map_page fuel h w asked v pos small begun) in
    granted h h' asked p z v' hands
