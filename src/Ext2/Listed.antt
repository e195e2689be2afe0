-- ===== src/Ext2/Listed.antt =====
-- `insertDirEntry` and `lookupInDir` of src/fs/ext2/ext2.cpp on a block: a list of entries.
use mathlib.Core.List.{append_assoc}
use weng_shi_os.Base.{
  ℕ, ◌^◌, ◌<◌, ◌≡◌, Bool, true, false, leb, List, [], ◌∷◌, ◌++◌, length, Option, none, some, arith,
  refl, sym, ap, ap₂, subst, ◌∙◌, if◌then◌else◌, Option-cases, inl, inr, tests,
}
use weng_shi_os.Ext2.Entry.{dir_entry_min_size, Visit, done, next}
use weng_shi_os.Ext2.Dir.{slack, fill_slack, fit_entry, insert_block}
use weng_shi_os.Ext2.Slots.{Slot, block_bytes, AreSlots, split_bytes, visit, walk-visit}
use weng_shi_os.Ext2.Insert.{HasRoom, refit, fits}
use weng_shi_os.Ext2.Inserted.{slack_read, fill_slack-refit}

abbrev pub HaveRoom : List Slot → Type 0
HaveRoom [] = Unit
HaveRoom (x ∷ slots) = HasRoom x × HaveRoom slots

pub HaveRoom-AreSlots : (slots : List Slot) → HaveRoom slots → AreSlots slots
HaveRoom-AreSlots [] h = tt
HaveRoom-AreSlots (x ∷ slots) h = (h.0.valid, HaveRoom-AreSlots slots h.1)

-- The entries with a new one at the first that has room for it.
unfoldable pub insert_slot : ℕ → ℕ → List ℕ → List Slot → Option (List Slot)
insert_slot child kind name [] = none
insert_slot child kind name (x ∷ slots) =
    let rest = insert_slot child kind name slots in
    if fits name x
    then some (refit child kind name x ++ slots)
    else elim rest [ none ↦ none | some slots' ↦ some (x ∷ slots') ]

-- The bytes of a block behind the first entries.
abbrev pub answer : List Slot → Option (List Slot) → Visit (Unit {0}) (List ℕ)
answer before none = next tt
answer before (some slots) = done (block_bytes (before ++ slots))

abbrev put : ℕ → ℕ → List ℕ → List Slot → Slot → List Slot → Unit {0} → Visit (Unit {0}) (List ℕ)
put child kind name before x after t =
    if fits name x
    then done (block_bytes (before ++ (refit child kind name x ++ after)))
    else next tt

abbrev answer_if : Bool → List ℕ → Visit (Unit {0}) (List ℕ)
answer_if c y = if c then done y else next tt

same_answer : (c : Bool) {y z : List ℕ} → (c ≡ true → y ≡ z) → answer_if c y ≡ answer_if c z
same_answer true h = ap done (h refl)
same_answer false h = refl

room_of : (b : List Slot) (y : Slot) (a : List Slot) → HaveRoom (b ++ (y ∷ a)) → HasRoom y
room_of [] y a h = h.0
room_of (x ∷ b) y a h = room_of b y a h.1

module _ (child kind : ℕ) (name : List ℕ) where
  answer_step :
      (before : List Slot) (x : Slot) (slots : List Slot)
      → answer (before ++ (x ∷ [])) (insert_slot child kind name slots)
        ≡ answer before (elim (insert_slot child kind name slots) as (λ _. Option (List Slot)) [
          | none ↦ none
          | some slots' ↦ some (x ∷ slots')
        ])
  answer_step before x slots = elim (Option-cases (insert_slot child kind name slots)) [
    | inl e ↦ rw e refl
    | inr (slots', e) ↦
        rw e (ap (λ (s : List Slot). done (block_bytes s)) (append_assoc before (x ∷ []) slots'))
  ]

  visit-put :
      (before slots : List Slot)
      → visit (put child kind name) before slots tt
        ≡ answer before (insert_slot child kind name slots)
  unfolding visit insert_slot
  visit-put before [] = refl
  visit-put before (x ∷ slots) =
      ground (arith, visit-put (before ++ (x ∷ [])) slots, answer_step before x slots)

  at_entry :
      (before : List Slot) (x : Slot) (after : List Slot) (t : Unit {0})
      → HasRoom x
      → length name < 2 ^ 8
      → fit_entry name child kind
          (block_bytes (before ++ (x ∷ after)))
          (length (block_bytes before))
          t
        ≡ put child kind name before x after t
  at_entry before x after t v h =
      ap
        (λ (c : Bool).
          if c
          then done (
              fill_slack (block_bytes (before ++ (x ∷ after))) (length (block_bytes before)) name
                child kind)
          else next tt)
        (ap₂ leb (ap dir_entry_min_size {y = length name} (omega (arith, h))) (
          ap (λ (b : List ℕ). slack b (length (block_bytes before))) (split_bytes before x after)
          ∙ slack_read (block_bytes before) (block_bytes after) x v))
      ∙ same_answer (fits name x)
          (λ e. fill_slack-refit child kind name before x after v h (omega (tests, e)))

  -- On a block that entries fill, each with room for its name, the search of `insertDirEntry` puts
  -- the new entry at the first one whose length leaves enough, and gives up if there is none.
  pub insert_block-eq-insert_slot :
      (slots : List Slot)
      → HaveRoom slots
      → length name < 2 ^ 8
      → length (block_bytes slots) < 2 ^ 32
      → insert_block (length (block_bytes slots)) name child kind (block_bytes slots)
        ≡ answer [] (insert_slot child kind name slots)
  unfolding insert_block block_bytes
  insert_block-eq-insert_slot slots v h small =
      walk-visit (fit_entry name child kind (block_bytes slots)) (put child kind name)
        (length (block_bytes slots)) (block_bytes slots) (length (block_bytes slots)) [] slots tt
        refl (HaveRoom-AreSlots slots v) refl small (omega arith)
        (λ b y a t e w.
          subst
            (λ (s : List Slot).
              fit_entry name child kind (block_bytes s) (length (block_bytes b)) t
              ≡ put child kind name b y a t)
            e (at_entry b y a t (room_of b y a (subst HaveRoom (sym e) v)) h))
      ∙ visit-put [] slots
