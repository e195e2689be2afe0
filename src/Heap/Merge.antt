-- ===== src/Heap/Merge.antt =====
-- The merging of `kfree` in src/mm/heap.cpp.
use weng_shi_os.Base.{
  ℕ, ◌+◌, ◌^◌, ◌<◌, ◌≡◌, true, false, List, [], ◌∷◌, ◌++◌, arith, refl, ◌∙◌, ap, sym, subst,
  Bool-cases, inl, inr,
}
use mathlib.Core.List.{append-nil}
use weng_shi_os.Base.Word.{add64}
use weng_shi_os.Heap.{Block, relink, merge_next, merge_prev}
use weng_shi_os.Heap.Chain.{
  Chain, Chain-le, Chain-lower, Chain-append, used, used-append, used_free,
}
use weng_shi_os.Heap.Find.{pre, relink-append, pre-cons, Chain-parts}

-- The freed block with the blocks behind it, merged.
abbrev pub Merged : ℕ → ℕ → List Block → Block × List Block → Type 0
Merged lo hi cs r = Chain lo hi (r.0 ∷ r.1) × (r.0.free ≡ true) × (used r.1 ≡ used cs)

pub merges :
    (b n : Block) (cs : List Block)
    → n.free ≡ true
    → b.size + 32 + n.size < 2 ^ 64
    → merge_next b (n ∷ cs) ≡ (record b { size = b.size + 32 + n.size }, cs)
unfolding merge_next
merges b n cs e h = ground (arith, e, h)

pub keeps : (b n : Block) (cs : List Block) → n.free ≡ false → merge_next b (n ∷ cs) ≡ (b, n ∷ cs)
unfolding merge_next
keeps b n cs e = ground (arith, e)

pub merge_next-Merged :
    (b : Block) (cs : List Block) (lo hi : ℕ)
    → hi < 2 ^ 64
    → b.free ≡ true
    → Chain lo hi (b ∷ cs)
    → Merged lo hi cs (merge_next b cs)
merge_next-Merged b [] lo hi hh f c =
    (unfold merge_next in c, unfold merge_next in f, unfold merge_next in refl)
merge_next-Merged b (n ∷ cs) lo hi hh f c = elim (Bool-cases n.free) [
  | inl e ↦
      subst (Merged lo hi (n ∷ cs))
        (sym (merges b n cs e (omega (arith, c, Chain-le cs (n.at + 32 + n.size) hi c.3.3))))
        (
          (
            c.0,
            c.1,
            omega (arith, c.2, c.3.2),
            Chain-lower cs (n.at + 32 + n.size) (b.at + 32 + (b.size + 32 + n.size)) hi
                (omega (arith, c.3.0)) c.3.3,
          ),
          f,
          sym (used_free n cs e),
        )
  | inr e ↦ subst (Merged lo hi (n ∷ cs)) (sym (keeps b n cs e)) (c, f, refl)
]

-- All blocks, merged with the block before.
abbrev pub Rejoined : ℕ → ℕ → List Block → List Block → List Block → Type 0
Rejoined lo hi r cs bs = Chain lo hi bs × (used bs ≡ used (pre r) ++ used cs)

pub joins :
    (p : Block) (ps : List Block) (b : Block) (cs : List Block)
    → p.free ≡ true
    → p.size + 32 + b.size < 2 ^ 64
    → merge_prev (p ∷ ps) b cs ≡ pre ps ++ record p { size = p.size + 32 + b.size } ∷ cs
unfolding merge_prev
joins p ps b cs e h =
    let sum : add64 p.size (add64 32 b.size) ≡ p.size + 32 + b.size = omega (arith, h) in
    ground (arith, e, sum, relink-append ps (record p { size = p.size + 32 + b.size } ∷ cs))

pub stays :
    (p : Block) (ps : List Block) (b : Block) (cs : List Block)
    → p.free ≡ false
    → merge_prev (p ∷ ps) b cs ≡ pre (p ∷ ps) ++ b ∷ cs
unfolding merge_prev
stays p ps b cs e = ground (arith, e, relink-append (p ∷ ps) (b ∷ cs))

pub alone : (b : Block) (cs : List Block) → merge_prev [] b cs ≡ b ∷ cs
unfolding merge_prev
alone b cs = refl

pub used_mine : (us : List (ℕ × ℕ)) → used (pre []) ++ us ≡ us
unfolding relink
used_mine us = refl

pub front_used : (p : Block) (ps : List Block) → p.free ≡ true → used (pre (p ∷ ps)) ≡ used (pre ps)
front_used p ps e =
    ap used (pre-cons p ps)
    ∙ used-append (pre ps) (p ∷ [])
    ∙ ap (λ us. used (pre ps) ++ us) (used_free p [] e)
    ∙ append-nil (used (pre ps))

pub joined :
    (p : Block) (ps : List Block) (b : Block) (cs : List Block) (lo m mid hi : ℕ)
    → hi < 2 ^ 64
    → p.free ≡ true
    → b.free ≡ true
    → Chain lo m (pre ps)
    → Chain m mid (p ∷ [])
    → Chain mid hi (b ∷ cs)
    → Rejoined lo hi (p ∷ ps) cs (merge_prev (p ∷ ps) b cs)
joined p ps b cs lo m mid hi hh e f first last d =
    let eq =
      joins p ps b cs e (omega (arith, last, d, Chain-le cs (b.at + 32 + b.size) hi d.3, hh)) in
    let whole : Chain m hi (record p { size = p.size + 32 + b.size } ∷ cs) = (
      last.0,
      last.1,
      omega (arith, last.2, d.2),
      Chain-lower cs (b.at + 32 + b.size) (p.at + 32 + (p.size + 32 + b.size)) hi
          (omega (arith, last.3, d.0)) d.3,
    ) in
    (
      subst (Chain lo hi) (sym eq) (Chain-append (pre ps) _ lo m hi first whole),
      ap used eq
          ∙ used-append (pre ps) (record p { size = p.size + 32 + b.size } ∷ cs)
          ∙ ap (λ us. used (pre ps) ++ us)
              (used_free (record p { size = p.size + 32 + b.size }) cs e)
          ∙ ap (λ us. us ++ used cs) (sym (front_used p ps e)),
    )

pub merge_prev-Rejoined :
    (r : List Block) (b : Block) (cs : List Block) (lo mid hi : ℕ)
    → hi < 2 ^ 64
    → b.free ≡ true
    → Chain lo mid (pre r)
    → Chain mid hi (b ∷ cs)
    → Rejoined lo hi r cs (merge_prev r b cs)
merge_prev-Rejoined [] b cs lo mid hi hh f c d = (
  subst (Chain lo hi) (sym (alone b cs))
      (Chain-lower (b ∷ cs) mid lo hi (Chain-le (pre []) lo mid c) d),
  ap used (alone b cs) ∙ used_free b cs f ∙ sym (used_mine (used cs)),
)
merge_prev-Rejoined (p ∷ ps) b cs lo mid hi hh f c d =
    let (m, first, last) =
      Chain-parts (pre ps) (p ∷ []) lo mid (subst (Chain lo mid) (pre-cons p ps) c) in
    elim (Bool-cases p.free) [
      | inl e ↦ joined p ps b cs lo m mid hi hh e f first last d
      | inr e ↦ (
        subst (Chain lo hi) (sym (stays p ps b cs e))
            (Chain-append (pre (p ∷ ps)) (b ∷ cs) lo mid hi c d),
        ap used (stays p ps b cs e)
            ∙ used-append (pre (p ∷ ps)) (b ∷ cs)
            ∙ ap (λ us. used (pre (p ∷ ps)) ++ us) (used_free b cs f),
      )
    ]
