-- ===== src/Ext2/Inserted.antt =====
-- `insertDirEntry` of src/fs/ext2/ext2.cpp on a block of entries: what is found afterwards.
use weng_shi_os.Base.{
  ℕ, ◌+◌, ◌-◌, ◌^◌, ◌≤◌, ◌<◌, ◌≡◌, true, false, ◌==◌, List, [], ◌∷◌, ◌++◌, length, arith, refl, sym,
  ap, ap₂, ◌∙◌, if◌then◌else◌, Bool-cases, inl, inr,
}
use weng_shi_os.Base.Word.{sub32}
use weng_shi_os.Ext2.Bytes.{le, overlay}
use weng_shi_os.Ext2.Entry.{entry_inode, rec_len, name_len, put_entry, dir_entry_min_size}
use weng_shi_os.Ext2.Dir.{slack, fill_slack}
use weng_shi_os.Ext2.Slots.{
  Slot, slot_len, slot_bytes, block_bytes, split_bytes, entry_inode_read, name_len_read,
  rec_len_read,
}
use weng_shi_os.Ext2.Insert.{
  used_len, HasRoom, filled, cut_short, behind, refit, pad, fill_unused, fill_behind,
}

pub dir_entry_min_size-le : (n : ℕ) → 8 + n ≤ dir_entry_min_size n
unfolding dir_entry_min_size
dir_entry_min_size-le n = omega arith

fill_slack_first :
    (b : List ℕ) (o : ℕ) (name : List ℕ) (child kind : ℕ)
    → (entry_inode b o == 0) ≡ true
    → fill_slack b o name child kind ≡ put_entry b o child (rec_len b o) kind name
unfolding fill_slack
fill_slack_first b o name child kind e = rw (e, fill_slack) refl

fill_slack_second :
    (b : List ℕ) (o : ℕ) (name : List ℕ) (child kind : ℕ)
    → (entry_inode b o == 0) ≡ false
    → fill_slack b o name child kind
      ≡ put_entry
          (overlay b (o + 4) (le 2 (dir_entry_min_size (name_len b o))))
          (o + dir_entry_min_size (name_len b o))
          child
          (sub32 (rec_len b o) (dir_entry_min_size (name_len b o)))
          kind
          name
unfolding fill_slack
fill_slack_second b o name child kind e = rw (e, fill_slack) refl

module _ (p q : List ℕ) (x : Slot) (v : HasRoom x) where
  abbrev buf : List ℕ
  buf = p ++ (slot_bytes x ++ q)

  abbrev off : ℕ
  off = length p

  pub slack_read : slack buf off ≡ slot_len x - used_len x
  unfolding slack
  slack_read =
      ap₂ sub32 (rec_len_read p q x v.valid) (
        ap₂ (λ (i n : ℕ). if i == 0 then 0 else dir_entry_min_size n)
          (entry_inode_read p q x v.valid) (name_len_read p q x v.valid))
      ∙ omega (arith, v.room, v.valid.len)

  module _ (child kind : ℕ) (name : List ℕ) (h : length name < 2 ^ 8)
      (f : dir_entry_min_size (length name) ≤ slot_len x - used_len x) where
    fill_slack_unused :
        (x.inode == 0) ≡ true
        → fill_slack buf off name child kind ≡ p ++ (slot_bytes (filled child kind name x) ++ q)
    fill_slack_unused e =
        fill_slack_first buf off name child kind
          (ap (λ (n : ℕ). n == 0) (entry_inode_read p q x v.valid) ∙ e)
        ∙ ap (λ (n : ℕ). put_entry buf off child n kind name) (rec_len_read p q x v.valid)
        ∙ fill_unused child kind name h p q x (omega (arith, f))

    fill_slack_used :
        (x.inode == 0) ≡ false
        → fill_slack buf off name child kind
          ≡ p ++ (slot_bytes (cut_short x) ++ (slot_bytes (behind child kind name x) ++ q))
    fill_slack_used e =
        let m = dir_entry_min_size-le (length x.name) in
        let u : used_len x ≡ dir_entry_min_size (length x.name) = ground (arith, e) in
        fill_slack_second buf off name child kind
          (ap (λ (n : ℕ). n == 0) (entry_inode_read p q x v.valid) ∙ e)
        ∙ ap₂
            (λ (n len : ℕ).
              put_entry (overlay buf (off + 4) (le 2 (dir_entry_min_size n)))
                (off + dir_entry_min_size n) child (sub32 len (dir_entry_min_size n)) kind name)
            (name_len_read p q x v.valid) (rec_len_read p q x v.valid)
        ∙ ap₂ (λ (n m : ℕ). put_entry (overlay buf (off + 4) (le 2 n)) (off + n) child m kind name)
            {y = 8 + length x.name + pad x} {v = length x.spare - pad x} (omega (arith, m))
            (omega (arith, m, u, v.room, v.valid.len))
        ∙ fill_behind child kind name h p q x (pad x) (omega (arith, m, u, v.room))
            (omega (arith, m, u, v.room, f))

-- The blocks before and after `x` with the new entry at it.
pub fill_slack-refit :
    (child kind : ℕ) (name : List ℕ) (b : List Slot) (x : Slot) (a : List Slot)
    → HasRoom x
    → length name < 2 ^ 8
    → dir_entry_min_size (length name) ≤ slot_len x - used_len x
    → fill_slack (block_bytes (b ++ (x ∷ a))) (length (block_bytes b)) name child kind
      ≡ block_bytes (b ++ (refit child kind name x ++ a))
unfolding block_bytes
fill_slack-refit child kind name b x a v h f =
    ap (λ (s : List ℕ). fill_slack s (length (block_bytes b)) name child kind) (split_bytes b x a)
    ∙ elim (Bool-cases (x.inode == 0)) [
      | inl e ↦
          fill_slack_unused (block_bytes b) (block_bytes a) x v child kind name h f e
          ∙ sym (split_bytes b (filled child kind name x) a)
          ∙ ap (λ (s : List Slot). block_bytes (b ++ (s ++ a))) (sym (refit_first e))
      | inr e ↦
          fill_slack_used (block_bytes b) (block_bytes a) x v child kind name h f e
          ∙ sym (split_bytes b (cut_short x) (behind child kind name x ∷ a))
          ∙ ap (λ (s : List Slot). block_bytes (b ++ (s ++ a))) (sym (refit_second e))
    ]
  where
    refit_first : (x.inode == 0) ≡ true → refit child kind name x ≡ filled child kind name x ∷ []
    refit_first e = rw e refl

    refit_second :
        (x.inode == 0) ≡ false
        → refit child kind name x ≡ cut_short x ∷ behind child kind name x ∷ []
    refit_second e = rw e refl
