-- ===== src/Ext2/Found.antt =====
-- `lookupInDir` of src/fs/ext2/ext2.cpp on a block of entries.
use weng_shi_os.Base.{
  ℕ, ◌^◌, ◌<◌, ◌≡◌, Bool, not, ◌==◌, ◌&&◌, List, [], ◌∷◌, ◌++◌, length, arith, refl, ap, ap₂, subst,
  ◌∙◌, if◌then◌else◌,
}
use weng_shi_os.Vfs.Types.{same_text}
use weng_shi_os.Ext2.Entry.{entry_inode, entry_name, is_named, Visit, done, next}
use weng_shi_os.Ext2.Dir.{match_entry, lookup_block}
use weng_shi_os.Ext2.Slots.{
  Slot, slot_bytes, block_bytes, IsSlot, AreSlots, split_bytes, entry_inode_read, name_len_read,
  entry_name_read, visit, walk-visit,
}

-- Whether an entry is in use and has the name.
abbrev pub holds : List ℕ → Slot → Bool
holds name x = not (x.inode == 0) && (length x.name == length name) && same_text x.name name

-- The inode of the first entry with the name.
unfoldable pub find_slot : List ℕ → List Slot → Visit (Unit {0}) ℕ
find_slot name [] = next tt
find_slot name (x ∷ slots) =
    let rest = find_slot name slots in if holds name x then done x.inode else rest

pub is_named_read :
    (name : List ℕ) (before : List Slot) (x : Slot) (after : List Slot)
    → IsSlot x
    → is_named (block_bytes (before ++ (x ∷ after))) (length (block_bytes before)) name
      ≡ holds name x
unfolding is_named
is_named_read name before x after v =
    ap (λ (b : List ℕ). is_named b (length (block_bytes before)) name) (split_bytes before x after)
    ∙ ap₂
        (λ (i n : ℕ).
          not (i == 0)
          && (n == length name)
          && same_text
              (entry_name (block_bytes before ++ (slot_bytes x ++ block_bytes after))
                (length (block_bytes before)))
              name)
        (entry_inode_read (block_bytes before) (block_bytes after) x v)
        (name_len_read (block_bytes before) (block_bytes after) x v)
    ∙ ap (λ (s : List ℕ). not (x.inode == 0) && (length x.name == length name) && same_text s name)
        (entry_name_read (block_bytes before) (block_bytes after) x v)

inode_read :
    (before : List Slot) (x : Slot) (after : List Slot)
    → IsSlot x
    → entry_inode (block_bytes (before ++ (x ∷ after))) (length (block_bytes before)) ≡ x.inode
inode_read before x after v =
    ap (λ (b : List ℕ). entry_inode b (length (block_bytes before))) (split_bytes before x after)
    ∙ entry_inode_read (block_bytes before) (block_bytes after) x v

abbrev look : List ℕ → List Slot → Slot → List Slot → Unit {0} → Visit (Unit {0}) ℕ
look name before x after t = if holds name x then done x.inode else next tt

visit-look :
    (name : List ℕ) (before slots : List Slot)
    → visit (look name) before slots tt ≡ find_slot name slots
unfolding visit find_slot
visit-look name before [] = refl
visit-look name before (x ∷ slots) = ground (arith, visit-look name (before ++ (x ∷ [])) slots)

-- On a block that entries fill, the search of `lookupInDir` finds the first entry that is in use and
-- has the name, and none if there is no such entry.
pub lookup_block-eq-find_slot :
    (name : List ℕ) (slots : List Slot)
    → AreSlots slots
    → length (block_bytes slots) < 2 ^ 32
    → lookup_block (length (block_bytes slots)) name (block_bytes slots) ≡ find_slot name slots
unfolding lookup_block block_bytes
lookup_block-eq-find_slot name slots v small =
    walk-visit (match_entry name (block_bytes slots)) (look name) (length (block_bytes slots))
      (block_bytes slots) (length (block_bytes slots)) [] slots tt refl v refl small (omega arith)
      at_entry
    ∙ visit-look name [] slots
  where
    at_entry :
        (b : List Slot) (y : Slot) (a : List Slot) (t : Unit {0})
        → b ++ (y ∷ a) ≡ [] ++ slots
        → IsSlot y
        → match_entry name (block_bytes slots) (length (block_bytes b)) t ≡ look name b y a t
    at_entry b y a t e w =
        subst
          (λ (s : List Slot).
            match_entry name (block_bytes s) (length (block_bytes b)) t ≡ look name b y a t)
          e
          (ap₂ (λ (c : Bool) (i : ℕ). if c then done i else next tt) (is_named_read name b y a w)
            (inode_read b y a w))
