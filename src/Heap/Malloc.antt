-- ===== src/Heap/Malloc.antt =====
-- The search of `kmalloc` in src/mm/heap.cpp.
use weng_shi_os.Base.{
  ℕ, ◌+◌, ◌-◌, ◌%◌, ◌^◌, ◌≤◌, ◌<◌, ◌≡◌, true, false, ◌&&◌, leb, List, [], ◌∷◌, ◌++◌, Option, none,
  some, arith, if◌then◌else◌, refl, ◌∙◌, ap, sym, subst, Bool-cases, inl, inr,
}
use weng_shi_os.Heap.{Block, split, take_fit}
use weng_shi_os.Heap.Chain.{Chain, Chain-le, used, used_free}

-- The bytes that a block which fits gives to a request.
abbrev pub granted : Block → ℕ → ℕ
granted b size = if leb (size + 48) b.size then size else b.size

split_whole :
    (b : Block) (size : ℕ)
    → size + 48 < 2 ^ 64
    → leb (size + 48) b.size ≡ false
    → split b size ≡ record b { free = false } ∷ []
unfolding split
split_whole b size h e = ground (arith, e)

split_rest :
    (b : Block) (size : ℕ)
    → b.size < 2 ^ 64
    → leb (size + 48) b.size ≡ true
    → split b size
      ≡ record b { size = size; free = false }
        ∷ record { at = b.at + 32 + size; size = b.size - size - 32; free = true }
        ∷ []
unfolding split
split_rest b size h e = ground (arith, e, h)

-- The block that fits is handed out from its start, with at least the size that was asked for.
split-Chain :
    (b : Block) (bs : List Block) (size lo hi : ℕ)
    → size + 48 < 2 ^ 64
    → hi < 2 ^ 64
    → size % 16 ≡ 0
    → size ≤ b.size
    → Chain lo hi (b ∷ bs)
    → Chain lo hi (split b size ++ bs)
      × (used (split b size ++ bs) ≡ (b.at + 32, granted b size) ∷ used bs)
split-Chain b bs size lo hi h hh a le c = elim (Bool-cases (leb (size + 48) b.size)) [
  | inl e ↦
      let fits : size + 48 ≤ b.size = ground (arith, e) in
      subst
        (λ cs. Chain lo hi (cs ++ bs) × (used (cs ++ bs) ≡ (b.at + 32, granted b size) ∷ used bs))
        (sym (split_rest b size (omega (arith, Chain-le bs _ hi c.3, hh)) e))
        (
          (
            c.0,
            c.1,
            a,
            (
              omega arith,
              omega (arith, c.1, a),
              omega (arith, c.2, a, fits),
              subst (λ (n : ℕ). Chain n hi bs) {x = b.at + 32 + b.size} (omega (arith, fits)) c.3,
            ),
          ),
          ground (arith, e),
        )
  | inr e ↦
      subst
        (λ cs. Chain lo hi (cs ++ bs) × (used (cs ++ bs) ≡ (b.at + 32, granted b size) ∷ used bs))
        (sym (split_whole b size h e)) (c, ground (arith, e))
]

-- No free block has the size.
abbrev pub NoFit : ℕ → List Block → Type 0
NoFit size [] = Unit {0}
NoFit size (b ∷ bs) = ((b.free && leb size b.size) ≡ false) × NoFit size bs

-- What the search gives: nothing fits; or one range more is handed out, that starts at the pointer
-- and has the size, and all else that was handed out stays as it was.
pub data Fit (size lo hi : ℕ) (bs : List Block) (r : Option (List Block × ℕ)) : Type 0 where
  nothing : NoFit size bs → r ≡ none → Fit size lo hi bs r
  taken :
      (bs' : List Block) (p n : ℕ) (before after : List (ℕ × ℕ))
      → r ≡ some (bs', p)
      → Chain lo hi bs'
      → used bs ≡ before ++ after
      → used bs' ≡ before ++ (p, n) ∷ after
      → size ≤ n
      → Fit size lo hi bs r

take_here :
    (size : ℕ) (b : Block) (bs : List Block)
    → (b.free && leb size b.size) ≡ true
    → take_fit size (b ∷ bs) ≡ some (split b size ++ bs, b.at + 32)
unfolding take_fit
take_here size b bs e = ground (arith, e)

take_none :
    (size : ℕ) (b : Block) (bs : List Block)
    → (b.free && leb size b.size) ≡ false
    → take_fit size bs ≡ none
    → take_fit size (b ∷ bs) ≡ none
unfolding take_fit
take_none size b bs e r = ground (arith, e, r)

take_later :
    (size : ℕ) (b : Block) (bs bs' : List Block) (p : ℕ)
    → (b.free && leb size b.size) ≡ false
    → take_fit size bs ≡ some (bs', p)
    → take_fit size (b ∷ bs) ≡ some (b ∷ bs', p)
unfolding take_fit
take_later size b bs bs' p e r = ground (arith, e, r)

-- The ranges handed out with one block more in front.
abbrev own : Block → List (ℕ × ℕ)
own b = if b.free then [] else (b.at + 32, b.size) ∷ []

used-own : (b : Block) (bs : List Block) → used (b ∷ bs) ≡ own b ++ used bs
used-own b bs = ground arith

own-append : (b : Block) (xs ys : List (ℕ × ℕ)) → (own b ++ xs) ++ ys ≡ own b ++ (xs ++ ys)
own-append b xs ys = ground arith

Fit-later :
    (size lo hi : ℕ) (b : Block) (bs : List Block)
    → Chain lo hi (b ∷ bs)
    → (b.free && leb size b.size) ≡ false
    → Fit size (b.at + 32 + b.size) hi bs (take_fit size bs)
    → Fit size lo hi (b ∷ bs) (take_fit size (b ∷ bs))
Fit-later size lo hi b bs c e (nothing unfit r) = nothing (e, unfit) (take_none size b bs e r)
Fit-later size lo hi b bs c e (taken bs' p n before after r c' u u' le) =
    taken (b ∷ bs') p n (own b ++ before) after (take_later size b bs bs' p e r) (c.0, c.1, c.2, c')
      (used-own b bs ∙ ap (λ us. own b ++ us) u ∙ sym (own-append b before after))
      (used-own b bs' ∙ ap (λ us. own b ++ us) u' ∙ sym (own-append b before ((p, n) ∷ after))) le

pub take_fit-Fit :
    (bs : List Block) (size lo hi : ℕ)
    → size + 48 < 2 ^ 64
    → hi < 2 ^ 64
    → size % 16 ≡ 0
    → Chain lo hi bs
    → Fit size lo hi bs (take_fit size bs)
take_fit-Fit [] size lo hi h hh a c = nothing tt (unfold take_fit in refl)
take_fit-Fit (b ∷ bs) size lo hi h hh a c = elim (Bool-cases (b.free && leb size b.size)) [
  | inl e ↦
      let is_free : b.free ≡ true = ground (arith, e) in
      let (chain, hands) = split-Chain b bs size lo hi h hh a (ground (arith, e)) c in
      taken (split b size ++ bs) (b.at + 32) (granted b size) [] (used bs) (take_here size b bs e)
        chain (used_free b bs is_free) hands (ground (arith, e))
  | inr e ↦ Fit-later size lo hi b bs c e (take_fit-Fit bs size (b.at + 32 + b.size) hi h hh a c.3)
]
