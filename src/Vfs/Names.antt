-- ===== src/Vfs/Names.antt =====
-- The entries of "/" that `listDirectory` of src/fs/vfs.cpp gives.
use weng_shi_os.Base.{
  ℕ, suc, ◌+◌, ◌≤◌, ◌<◌, ◌≡◌, ◌≢◌, true, false, ◌==◌, List, [], ◌∷◌, ◌++◌, length, take, get_or,
  Option, none, some, arith, refl, sym, ap, ◌∙◌, subst, Bool-cases, Option-cases, inl, inr,
}
use weng_shi_os.Base.Int.{pos}
use weng_shi_os.Vfs.Types.{DirEntry, Mount, Vfs}
use weng_shi_os.Vfs.Paths.{begins}
use weng_shi_os.Vfs.Canonical.{take-all}
use weng_shi_os.Vfs.Listing.{is_shown, top_name, list_mounts, list_root}

-- The names that "/" shows have room in the entries of `shown`.
abbrev pub AllShort : List Mount → Type 0
AllShort [] = Unit {0}
AllShort (m ∷ ms) = ((s : List ℕ) → top_name m ≡ some s → length s ≤ 31) × AllShort ms

begins_refl : (s : List ℕ) → begins s s ≡ true
unfolding begins
begins_refl [] = refl
begins_refl (c ∷ s) = ground (arith, begins_refl s)

get_or-end : (s : List ℕ) → get_or s (length s) 0 ≡ 0
get_or-end [] = refl
get_or-end (c ∷ s) = get_or-end s

is_shown-last : (shown : List (List ℕ)) (s : List ℕ) → is_shown (shown ++ s ∷ []) s ≡ true
unfolding is_shown
is_shown-last [] s = ground (arith, begins_refl s, get_or-end s)
is_shown-last (t ∷ shown) s = ground (arith, is_shown-last shown s)

is_shown-more :
    (shown : List (List ℕ)) (t s : List ℕ)
    → is_shown (shown ++ t ∷ []) s ≡ false
    → is_shown shown s ≡ false
unfolding is_shown
is_shown-more [] t s h = refl
is_shown-more (u ∷ shown) t s h = ground (arith, h, is_shown-more shown t s)

-- What one mount does to the loop: nothing, or it shows a new name.
data Listed (m : Mount) (ms : List Mount) (shown : List (List ℕ)) (seen : ℕ) : Type 0 where
  passed :
      ((t : ℕ) → list_mounts (m ∷ ms) shown seen t ≡ list_mounts ms shown seen t)
      → Listed m ms shown seen
  shows :
      (s : List ℕ)
      → is_shown shown s ≡ false
      → ((t : ℕ)
          → seen ≡ t
          → list_mounts (m ∷ ms) shown seen t ≡ some (record { name = s; is_directory = true }))
      → ((t : ℕ)
          → seen ≢ t
          → list_mounts (m ∷ ms) shown seen t ≡ list_mounts ms (shown ++ s ∷ []) (seen + 1) t)
      → Listed m ms shown seen

mount_cases :
    (m : Mount) (ms : List Mount) (shown : List (List ℕ)) (seen : ℕ)
    → ((s : List ℕ) → top_name m ≡ some s → length s ≤ 31)
    → Listed m ms shown seen
unfolding list_mounts
mount_cases m ms shown seen short = elim (Option-cases (top_name m)) [
  | inl e ↦ passed (λ t. rw (e, list_mounts) refl)
  | inr (s, e) ↦ elim (Bool-cases (is_shown shown s)) [
    | inl f ↦ passed (λ t. rw (e, list_mounts) (rw (f, list_mounts) refl))
    | inr f ↦
        let whole : take 31 s ≡ s = take-all 31 s (short s e) in
        let name : take 63 (take 31 s) ≡ s =
          ap (take 63) whole ∙ take-all 63 s (omega (arith, short s e)) in
        shows s f (λ t z. ground (arith, e, f, z, name)) (λ t z. ground (arith, e, f, z, whole))
  ]
]

list_mounts-nil :
    (shown : List (List ℕ)) (seen target : ℕ) → list_mounts [] shown seen target ≡ none
unfolding list_mounts
list_mounts-nil shown seen target = refl

abbrev name_or : Option DirEntry → List ℕ
name_or none = []
name_or (some e) = e.name

same_name : {e f : DirEntry} {r : Option DirEntry} → r ≡ some e → r ≡ some f → e.name ≡ f.name
same_name q r = ap name_or (sym q ∙ r)

-- An entry is not among the names shown before.
list_mounts-new :
    (ms : List Mount) (shown : List (List ℕ)) (seen target : ℕ) (e : DirEntry)
    → AllShort ms
    → list_mounts ms shown seen target ≡ some e
    → is_shown shown e.name ≡ false
list_mounts-new [] shown seen target e h r =
    absurd (ground (arith, r, list_mounts-nil shown seen target))
list_mounts-new (m ∷ ms) shown seen target e h r = elim (mount_cases m ms shown seen h.0) [
  | passed q ↦ list_mounts-new ms shown seen target e h.1 (sym (q target) ∙ r)
  | shows s f here later ↦ elim (Bool-cases (seen == target)) [
    | inl t ↦
        subst (λ n. is_shown shown n ≡ false) (same_name (here target (ground (arith, t))) r) f
    | inr t ↦ is_shown-more shown s e.name (
        list_mounts-new ms (shown ++ s ∷ []) (seen + 1) target e h.1
          (sym (later target (λ z. ground (arith, t, z))) ∙ r))
  ]
]

list_mounts-distinct :
    (ms : List Mount) (shown : List (List ℕ)) (seen k j : ℕ) (e f : DirEntry)
    → AllShort ms
    → k < j
    → seen ≤ k
    → list_mounts ms shown seen k ≡ some e
    → list_mounts ms shown seen j ≡ some f
    → e.name ≢ f.name
list_mounts-distinct [] shown seen k j e f h l b r r' =
    absurd (ground (arith, r, list_mounts-nil shown seen k))
list_mounts-distinct (m ∷ ms) shown seen k j e f h l b r r' =
    elim (mount_cases m ms shown seen h.0) [
      | passed q ↦
          list_mounts-distinct ms shown seen k j e f h.1 l b (sym (q k) ∙ r) (sym (q j) ∙ r')
      | shows s z here later ↦
          let next : list_mounts ms (shown ++ s ∷ []) (seen + 1) j ≡ some f =
            sym (later j (λ t. omega (arith, t, l, b))) ∙ r' in
          elim (Bool-cases (seen == k)) [
            | inl t ↦ λ same. absurd (
                ground (
                  arith,
                  is_shown-last shown s,
                  ap (is_shown (shown ++ s ∷ [])) (same_name (here k (ground (arith, t))) r ∙ same),
                  list_mounts-new ms (shown ++ s ∷ []) (seen + 1) j f h.1 next,
                ))
            | inr t ↦
                list_mounts-distinct ms (shown ++ s ∷ []) (seen + 1) k j e f h.1 l
                  (ground (arith, t, b)) (sym (later k (λ z. ground (arith, t, z))) ∙ r) next
          ]
    ]

-- Two different places of "/" behind "dev" have entries of different names, if each name has at
-- most 31 bytes.
pub list_root-distinct :
    (v : Vfs) (k j : ℕ) (e f : DirEntry)
    → AllShort v.mounts
    → k < j
    → list_root v (pos (suc k)) ≡ some e
    → list_root v (pos (suc j)) ≡ some f
    → e.name ≢ f.name
unfolding list_root
list_root-distinct v k j e f h l r r' =
    list_mounts-distinct v.mounts [] 0 k j e f h l (omega arith) r r'
