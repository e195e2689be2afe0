-- ===== src/Ext2/Slots.antt =====
-- A directory block of src/fs/ext2/ext2.cpp as a sequence of entries that fill it.
use mathlib.Core.List.{append_assoc, append-nil}
use weng_shi_os.Base.{
  ℕ, zero, suc, ◌+◌, ◌^◌, ◌≤◌, ◌<◌, ◌≡◌, List, [], ◌∷◌, ◌++◌, length, take, drop, length-append,
  drop_past, take_past, drop-drop, arith, refl, sym, ap, ap₂, ◌∙◌, fun_ext,
}
use weng_shi_os.Base.Word.{add32}
use weng_shi_os.Ext2.Bytes.{le, le_value, field}
use weng_shi_os.Ext2.Codec.{le_value-le}
use weng_shi_os.Ext2.Entry.{entry_inode, rec_len, name_len, entry_name, Visit, next, and_then, walk}

-- An entry with its name and the bytes behind it that belong to it.
pub record Slot : Type 0 where
  pub inode : ℕ
  pub kind : ℕ
  pub name : List ℕ
  pub spare : List ℕ

abbrev pub slot_len : Slot → ℕ
slot_len x = 8 + length x.name + length x.spare

unfoldable pub slot_bytes : Slot → List ℕ
slot_bytes x =
    le 4 x.inode
    ++ (le 2 (slot_len x) ++ (le 1 (length x.name) ++ (le 1 x.kind ++ (x.name ++ x.spare))))

unfoldable pub block_bytes : List Slot → List ℕ
block_bytes [] = []
block_bytes (x ∷ slots) = slot_bytes x ++ block_bytes slots

pub record IsSlot (x : Slot) : Type 0 where
  pub inode : x.inode < 2 ^ 32
  pub kind : x.kind < 2 ^ 8
  pub name : length x.name < 2 ^ 8
  pub len : slot_len x < 2 ^ 16

abbrev pub AreSlots : List Slot → Type 0
AreSlots [] = Unit
AreSlots (x ∷ slots) = IsSlot x × AreSlots slots

pub length-slot_bytes : (x : Slot) → length (slot_bytes x) ≡ slot_len x
unfolding slot_bytes
length-slot_bytes x = omega (arith, length-append x.name x.spare)

pub block_bytes-append : (a b : List Slot) → block_bytes (a ++ b) ≡ block_bytes a ++ block_bytes b
unfolding block_bytes
block_bytes-append [] b = refl
block_bytes-append (x ∷ a) b =
    ap (λ (t : List ℕ). slot_bytes x ++ t) (block_bytes-append a b)
    ∙ sym (append_assoc (slot_bytes x) (block_bytes a) (block_bytes b))

pub AreSlots-append : (a b : List Slot) → AreSlots a → AreSlots b → AreSlots (a ++ b)
AreSlots-append [] b ha hb = hb
AreSlots-append (x ∷ a) b ha hb = (ha.0, AreSlots-append a b ha.1 hb)

field_past : (p r : List ℕ) (k w : ℕ) → field (length p + k) w (p ++ r) ≡ field k w r
field_past p r k w =
    ap (λ (t : List ℕ). le_value (take w t))
      (drop-drop (length p) k (p ++ r) ∙ ap (drop k) (drop_past (length p) p r refl))

-- The members of an entry behind the bytes `p`, with the bytes `q` behind it.
module _ (p q : List ℕ) (x : Slot) (v : IsSlot x) where
  pub entry_inode_read : entry_inode (p ++ (slot_bytes x ++ q)) (length p) ≡ x.inode
  unfolding slot_bytes
  entry_inode_read =
      ap (λ (n : ℕ). field n 4 (p ++ (slot_bytes x ++ q))) {y = length p + 0} (omega arith)
      ∙ field_past p (slot_bytes x ++ q) 0 4
      ∙ le_value-le 4 x.inode v.inode

  pub rec_len_read : rec_len (p ++ (slot_bytes x ++ q)) (length p) ≡ slot_len x
  unfolding slot_bytes
  rec_len_read = field_past p (slot_bytes x ++ q) 4 2 ∙ le_value-le 2 (slot_len x) v.len

  pub name_len_read : name_len (p ++ (slot_bytes x ++ q)) (length p) ≡ length x.name
  unfolding slot_bytes
  name_len_read = field_past p (slot_bytes x ++ q) 6 1 ∙ le_value-le 1 (length x.name) v.name

  pub entry_name_read : entry_name (p ++ (slot_bytes x ++ q)) (length p) ≡ x.name
  unfolding slot_bytes
  entry_name_read =
      ap₂ (λ (n : ℕ) (t : List ℕ). take n t) name_len_read
        (drop-drop (length p) 8 (p ++ (slot_bytes x ++ q))
          ∙ ap (drop 8) (drop_past (length p) p (slot_bytes x ++ q) refl)
          ∙ append_assoc x.name x.spare q)
      ∙ take_past (length x.name) x.name (x.spare ++ q) refl

-- The loop over the entries, with those before and those to come.
unfoldable pub visit :
    {S A : Type 0}
    → (List Slot → Slot → List Slot → S → Visit S A)
    → List Slot
    → List Slot
    → S
    → Visit S A
visit step before [] s = next s
visit step before (x ∷ after) s =
    and_then (step before x after s) (λ s'. visit step (before ++ (x ∷ [])) after s')

-- One round of the loop over the bytes.
walk_round :
    {S A : Type 0} (body : ℕ → S → Visit S A) (size : ℕ) (buf : List ℕ) (n off : ℕ) (s : S)
    → off < size
    → 0 < rec_len buf off
    → walk body size buf (suc n) off s
      ≡ and_then (body off s) (λ s'. walk body size buf n (add32 off (rec_len buf off)) s')
unfolding walk
walk_round body size buf n off s h pos = ground (arith, h, pos)

walk_end :
    {S A : Type 0} (body : ℕ → S → Visit S A) (size : ℕ) (buf : List ℕ) (n off : ℕ) (s : S)
    → size ≤ off
    → walk body size buf n off s ≡ next s
unfolding walk
walk_end body size buf zero off s h = refl
walk_end body size buf (suc n) off s h = ground (arith, h)

pub split_bytes :
    (before : List Slot) (x : Slot) (after : List Slot)
    → block_bytes (before ++ (x ∷ after))
      ≡ block_bytes before ++ (slot_bytes x ++ block_bytes after)
unfolding block_bytes
split_bytes before x after = block_bytes-append before (x ∷ after)

pub length-split :
    (before : List Slot) (x : Slot) (after : List Slot)
    → length (block_bytes (before ++ (x ∷ after)))
      ≡ length (block_bytes before) + slot_len x + length (block_bytes after)
length-split before x after = omega (
  arith,
  ap length (split_bytes before x after),
  length-append (block_bytes before) (slot_bytes x ++ block_bytes after),
  length-append (slot_bytes x) (block_bytes after),
  length-slot_bytes x,
)

-- On a block of entries the loop over the bytes visits them in order, if its body does at each entry
-- what the step says.
pub walk-visit :
    {S A : Type 0} (body : ℕ → S → Visit S A) (step : List Slot → Slot → List Slot → S → Visit S A)
    (size : ℕ) (buf : List ℕ) (n : ℕ) (before after : List Slot) (s : S)
    → buf ≡ block_bytes (before ++ after)
    → AreSlots after
    → size ≡ length buf
    → size < 2 ^ 32
    → size ≤ length (block_bytes before) + n
    → ((b : List Slot) (y : Slot) (a : List Slot) (t : S)
        → b ++ (y ∷ a) ≡ before ++ after
        → IsSlot y
        → body (length (block_bytes b)) t ≡ step b y a t)
    → walk body size buf n (length (block_bytes before)) s ≡ visit step before after s
unfolding visit block_bytes
walk-visit body step size buf n before [] s e v l small fuel h =
    walk_end body size buf n _ s
      (omega (arith, l, ap length (e ∙ ap block_bytes (append-nil before))))
walk-visit body step size buf zero before (x ∷ after) s e v l small fuel h =
    absurd (omega (arith, l, fuel, ap length e, length-split before x after))
walk-visit body step size buf (suc n) before (x ∷ after) s e v l small fuel h =
    let lens = ap length e ∙ length-split before x after in
    let here : rec_len buf (length (block_bytes before)) ≡ slot_len x =
      ap (λ (b : List ℕ). rec_len b (length (block_bytes before))) (e ∙ split_bytes before x after)
      ∙ rec_len_read (block_bytes before) (block_bytes after) x v.0 in
    let there : add32 (length (block_bytes before)) (rec_len buf (length (block_bytes before)))
        ≡ length (block_bytes (before ++ (x ∷ []))) =
      omega (arith, here, lens, l, small, length-split before x []) in
    let regrouped : (before ++ (x ∷ [])) ++ after ≡ before ++ (x ∷ after) =
      append_assoc before (x ∷ []) after in
    walk_round body size buf n _ s (omega (arith, lens, l)) (omega (arith, here))
    ∙ ap₂ and_then (h before x after s refl v.0) (
        fun_ext λ s'.
          ap (λ (off : ℕ). walk body size buf n off s') there
          ∙ walk-visit body step size buf n (before ++ (x ∷ [])) after s'
              (e ∙ ap block_bytes (sym regrouped)) v.1 l small
              (omega (arith, fuel, length-split before x []))
              (λ b y a t' eq. h b y a t' (eq ∙ regrouped)))
