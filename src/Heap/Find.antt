-- ===== src/Heap/Find.antt =====
-- The search of `kfree` in src/mm/heap.cpp for the block of a pointer.
use weng_shi_os.Base.{
  ℕ, ◌+◌, ◌≤◌, ◌≡◌, ◌≢◌, false, List, [], ◌∷◌, ◌++◌, some, arith, refl, ◌∙◌, ap, ap₂, sym,
  Bool-cases, inl, inr,
}
use mathlib.Core.List.{append_assoc, append-nil}
use weng_shi_os.Heap.{Block, find_block, relink}
use weng_shi_os.Heap.Chain.{Chain, used, used_free, used_taken}

abbrev pub pre : List Block → List Block
pre r = relink r []

pub relink-append : (r xs : List Block) → relink r xs ≡ pre r ++ xs
unfolding relink
relink-append [] xs = refl
relink-append (p ∷ ps) xs =
    relink-append ps (p ∷ xs)
    ∙ sym (append_assoc (pre ps) (p ∷ []) xs)
    ∙ ap (λ ys. ys ++ xs) (sym (relink-append ps (p ∷ [])))

pub pre-cons : (p : Block) (ps : List Block) → pre (p ∷ ps) ≡ pre ps ++ p ∷ []
unfolding relink
pre-cons p ps = relink-append ps (p ∷ [])

pub Chain-parts :
    (xs ys : List Block) (lo hi : ℕ)
    → Chain lo hi (xs ++ ys)
    → (mid : ℕ) × Chain lo mid xs × Chain mid hi ys
Chain-parts [] ys lo hi c = (lo, omega arith, c)
Chain-parts (b ∷ xs) ys lo hi c =
    let (mid, first, second) = Chain-parts xs ys (b.at + 32 + b.size) hi c.3 in
    (mid, (c.0, c.1, c.2, first), second)

-- A block that is handed out, with the blocks around it.
pub record Around (bs : List Block) (xs ys : List (ℕ × ℕ)) (p n : ℕ) : Type 0 where
  pub front : List Block
  pub block : Block
  pub behind : List Block
  pub parts : bs ≡ front ++ block ∷ behind
  pub address : block.at + 32 ≡ p
  pub taken : block.free ≡ false
  pub before : used front ≡ xs
  pub after : used behind ≡ ys

pub later_block :
    (b : Block) (bs : List Block) (xs xs' ys : List (ℕ × ℕ)) (p n : ℕ)
    → ((zs : List Block) → used zs ≡ xs → used (b ∷ zs) ≡ xs')
    → Around bs xs ys p n
    → Around (b ∷ bs) xs' ys p n
later_block b bs xs xs' ys p n more a = record {
  front = b ∷ a.front;
  block = a.block;
  behind = a.behind;
  parts = ap (λ cs. b ∷ cs) a.parts;
  address = a.address;
  taken = a.taken;
  before = more a.front a.before;
  after = a.after;
}

pub taken_block :
    (b : Block) (bs : List Block) (xs ys : List (ℕ × ℕ)) (p n : ℕ)
    → b.free ≡ false
    → (b.at + 32, b.size) ∷ used bs ≡ xs ++ (p, n) ∷ ys
    → ((zs : List (ℕ × ℕ)) → used bs ≡ zs ++ (p, n) ∷ ys → Around bs zs ys p n)
    → Around (b ∷ bs) xs ys p n
taken_block b bs [] ys p n t e later = record {
  front = [];
  block = b;
  behind = bs;
  parts = refl;
  address = ground (arith, e);
  taken = t;
  before = refl;
  after = ground (arith, e);
}
taken_block b bs ((q, m) ∷ xs) ys p n t e later =
    later_block b bs xs ((q, m) ∷ xs) ys p n
      (λ zs z. used_taken b zs t ∙ ap₂ (λ x us. x ∷ us) (ground (arith, e)) z)
      (later xs (ground (arith, e)))

pub find_range :
    (bs : List Block) (xs ys : List (ℕ × ℕ)) (p n : ℕ)
    → used bs ≡ xs ++ (p, n) ∷ ys
    → Around bs xs ys p n
find_range [] [] ys p n e = absurd (ground (arith, e))
find_range [] (x ∷ xs) ys p n e = absurd (ground (arith, e))
find_range (b ∷ bs) xs ys p n e = elim (Bool-cases b.free) [
  | inl f ↦
      later_block b bs xs xs ys p n (λ zs z. used_free b zs f ∙ z)
        (find_range bs xs ys p n (sym (used_free b bs f) ∙ e))
  | inr t ↦
      taken_block b bs xs ys p n t (sym (used_taken b bs t) ∙ e) (λ zs. find_range bs zs ys p n)
]

pub Chain-reaches :
    (front behind : List Block) (b : Block) (lo hi : ℕ)
    → Chain lo hi (front ++ b ∷ behind)
    → lo ≤ b.at
Chain-reaches [] behind b lo hi c = c.0
Chain-reaches (f ∷ front) behind b lo hi c =
    omega (arith, c.0, Chain-reaches front behind b (f.at + 32 + f.size) hi c.3)

pub find_here : (r bs : List Block) (b : Block) → find_block r b.at (b ∷ bs) ≡ some (r, b, bs)
unfolding find_block
find_here r bs b = ground arith

pub find_on :
    (r bs : List Block) (f : Block) (at : ℕ)
    → f.at ≢ at
    → find_block r at (f ∷ bs) ≡ find_block (f ∷ r) at bs
unfolding find_block
find_on r bs f at ne = ground arith

pub found :
    (front r behind : List Block) (b : Block) (lo hi : ℕ)
    → Chain lo hi (front ++ b ∷ behind)
    → (r' : List Block) × (find_block r b.at (front ++ b ∷ behind) ≡ some (r', b, behind))
      × (pre r' ≡ pre r ++ front)
found [] r behind b lo hi c = (r, find_here r behind b, sym (append-nil (pre r)))
found (f ∷ front) r behind b lo hi c =
    let far : f.at + 32 + f.size ≤ b.at =
      Chain-reaches front behind b (f.at + 32 + f.size) hi c.3 in
    let (r', e, z) = found front (f ∷ r) behind b (f.at + 32 + f.size) hi c.3 in
    (
      r',
      find_on r (front ++ b ∷ behind) f b.at (λ q. omega (arith, far, q)) ∙ e,
      z ∙ ap (λ ys. ys ++ front) (pre-cons f r) ∙ append_assoc (pre r) (f ∷ []) front,
    )
