-- ===== src/Ext2/Insertion.antt =====
-- `insertDirEntry` and `lookupInDir` of src/fs/ext2/ext2.cpp together, on the bytes of a block.
use weng_shi_os.Base.{
  ℕ, ◌^◌, ◌<◌, ◌≡◌, ◌⊎◌, false, List, [], ◌∷◌, length, none, arith, sym, ap, ◌∙◌, Option-cases, inl,
  inr,
}
use weng_shi_os.Vfs.Types.{same_text}
use weng_shi_os.Ext2.Entry.{done, next}
use weng_shi_os.Ext2.Dir.{insert_block, lookup_block}
use weng_shi_os.Ext2.Slots.{Slot, block_bytes, AreSlots}
use weng_shi_os.Ext2.Found.{find_slot, lookup_block-eq-find_slot}
use weng_shi_os.Ext2.Insert.{fits}
use weng_shi_os.Ext2.Entered.{IsNew, Entered, insert_slot-Entered}
use weng_shi_os.Ext2.Listed.{
  HaveRoom, HaveRoom-AreSlots, insert_slot, answer, insert_block-eq-insert_slot,
}

-- No entry's length leaves enough for the name.
abbrev pub NoneFits : List ℕ → List Slot → Type 0
NoneFits name [] = Unit
NoneFits name (x ∷ slots) = (fits name x ≡ false) × NoneFits name slots

module _ (child kind : ℕ) (name : List ℕ) (v : IsNew child kind name) where
  insert_slot-NoneFits :
      (slots : List Slot) → insert_slot child kind name slots ≡ none → NoneFits name slots
  unfolding insert_slot
  insert_slot-NoneFits [] e = tt
  insert_slot-NoneFits (x ∷ slots) e = elim (Option-cases (insert_slot child kind name slots)) [
    | inl gone ↦ (ground (arith, e), insert_slot-NoneFits slots gone)
    | inr (rest, more) ↦ absurd (ground (arith, more, e))
  ]

  -- What the bytes of the block answer to `lookupInDir` once `insertDirEntry` has put a new entry in.
  pub record Findable (size : ℕ) (old new : List ℕ) : Type 0 where
    pub same_length : length new ≡ size
    pub fresh : lookup_block size name old ≡ next tt → lookup_block size name new ≡ done child
    pub others :
        (other : List ℕ)
        → same_text name other ≡ false
        → lookup_block size other new ≡ lookup_block size other old

  findable :
      (slots slots' : List Slot)
      → AreSlots slots
      → length (block_bytes slots) < 2 ^ 32
      → Entered child name slots slots'
      → Findable (length (block_bytes slots)) (block_bytes slots) (block_bytes slots')
  findable slots slots' s small d = record {
    same_length = d.same_length;
    fresh = λ n. looks name ∙ d.found (sym (looked name) ∙ n);
    others = λ other o. looks other ∙ d.others other o ∙ sym (looked other);
  }
    where
      looked :
          (other : List ℕ)
          → lookup_block (length (block_bytes slots)) other (block_bytes slots)
            ≡ find_slot other slots
      looked other = lookup_block-eq-find_slot other slots s small

      looks :
          (other : List ℕ)
          → lookup_block (length (block_bytes slots)) other (block_bytes slots')
            ≡ find_slot other slots'
      looks other =
          ap (λ (n : ℕ). lookup_block n other (block_bytes slots')) (sym d.same_length)
          ∙ lookup_block-eq-find_slot other slots' (HaveRoom-AreSlots slots' d.roomy)
              (omega (arith, small, d.same_length))

  -- Either no entry has enough spare length, or the new block is as it should be.
  abbrev pub InsertAnswer : List Slot → Type 0
  InsertAnswer slots =
      ((insert_block (length (block_bytes slots)) name child kind (block_bytes slots) ≡ next tt)
        × NoneFits name slots)
      ⊎ ((slots' : List Slot) × (insert_block (length (block_bytes slots)) name child kind
              (block_bytes slots)
            ≡ done (block_bytes slots'))
          × HaveRoom slots'
          × Findable (length (block_bytes slots)) (block_bytes slots) (block_bytes slots'))

  -- For a new entry and a block of fewer than 2 ^ 32 bytes that entries with room for their names
  -- fill, `insertDirEntry` either finds no entry with enough spare length, and there is none, or
  -- gives a block of the same size, again filled by such entries, in which `lookupInDir` finds the
  -- new name if it was not there before and every other name as before.
  pub lookup_block-insert_block :
      (slots : List Slot)
      → HaveRoom slots
      → length (block_bytes slots) < 2 ^ 32
      → InsertAnswer slots
  lookup_block-insert_block slots r small =
      let run = insert_block-eq-insert_slot child kind name slots r v.short small in
      elim (Option-cases (insert_slot child kind name slots)) [
        | inl gone ↦ inl (run ∙ ap (answer []) gone, insert_slot-NoneFits slots gone)
        | inr (slots', e) ↦
            let d = insert_slot-Entered child kind name v slots slots' r e in
            inr (
              slots',
              run ∙ ap (answer []) e,
              d.roomy,
              findable slots slots' (HaveRoom-AreSlots slots r) small d,
            )
      ]
