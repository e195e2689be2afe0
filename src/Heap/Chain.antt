-- ===== src/Heap/Chain.antt =====
-- What the chain of blocks of src/mm/heap.cpp looks like, and which memory is handed out.
use weng_shi_os.Base.{
  ℕ, ◌+◌, ◌%◌, ◌≤◌, ◌≡◌, true, false, List, [], ◌∷◌, ◌++◌, arith, if◌then◌else◌, refl,
}
use weng_shi_os.Heap.{Block, Heap, heap_start, heap_max_size}

-- Blocks from `lo` to `hi`: aligned, in the order of their addresses, none reaching into the next.
abbrev pub Chain : ℕ → ℕ → List Block → Type 0
Chain lo hi [] = lo ≤ hi
Chain lo hi (b ∷ bs) =
    (lo ≤ b.at) × (b.at % 16 ≡ 0) × (b.size % 16 ≡ 0) × Chain (b.at + 32 + b.size) hi bs

-- The memory that is handed out, as addresses and sizes.
abbrev pub used : List Block → List (ℕ × ℕ)
used [] = []
used (b ∷ bs) = if b.free then used bs else (b.at + 32, b.size) ∷ used bs

pub record IsValid (h : Heap) : Type 0 where
  pub chain : Chain heap_start h.mapped_end h.blocks
  pub pages : h.mapped_end % 4096 ≡ 0
  pub bounded : h.mapped_end ≤ heap_start + heap_max_size

pub Chain-le : (bs : List Block) (lo hi : ℕ) → Chain lo hi bs → lo ≤ hi
Chain-le [] lo hi c = c
Chain-le (b ∷ bs) lo hi c = omega (arith, Chain-le bs (b.at + 32 + b.size) hi c.3)

pub Chain-lower : (bs : List Block) (lo lo' hi : ℕ) → lo' ≤ lo → Chain lo hi bs → Chain lo' hi bs
Chain-lower [] lo lo' hi h c = omega arith
Chain-lower (b ∷ bs) lo lo' hi h c = (omega (arith, c.0), c.1, c.2, c.3)

pub Chain-upper : (bs : List Block) (lo hi hi' : ℕ) → hi ≤ hi' → Chain lo hi bs → Chain lo hi' bs
Chain-upper [] lo hi hi' h c = omega arith
Chain-upper (b ∷ bs) lo hi hi' h c =
    (c.0, c.1, c.2, Chain-upper bs (b.at + 32 + b.size) hi hi' h c.3)

-- A chain in two parts.
pub Chain-append :
    (xs ys : List Block) (lo mid hi : ℕ)
    → Chain lo mid xs
    → Chain mid hi ys
    → Chain lo hi (xs ++ ys)
Chain-append [] ys lo mid hi c d = Chain-lower ys mid lo hi c d
Chain-append (b ∷ xs) ys lo mid hi c d =
    (c.0, c.1, c.2, Chain-append xs ys (b.at + 32 + b.size) mid hi c.3 d)

pub used-append : (xs ys : List Block) → used (xs ++ ys) ≡ used xs ++ used ys
used-append [] ys = refl
used-append (b ∷ xs) ys = ground (arith, used-append xs ys)

pub used_free : (b : Block) (bs : List Block) → b.free ≡ true → used (b ∷ bs) ≡ used bs
used_free b bs e = ground (arith, e)

pub used_taken :
    (b : Block) (bs : List Block) → b.free ≡ false → used (b ∷ bs) ≡ (b.at + 32, b.size) ∷ used bs
used_taken b bs e = ground (arith, e)
