-- ===== src/Ext2/Stored.antt =====
-- `readInode` and `writeInode` of src/fs/ext2/ext2.cpp: an inode table as an array of inodes.
use weng_shi_os.Base.{
  ℕ, ◌+◌, ◌^◌, ◌≤◌, ◌<◌, ◌≡◌, ◌≢◌, inl, inr, Bool, true, false, ◌==◌, leb, List, length, take, drop,
  none, some, if◌then◌else◌, arith, sym, ap, subst, ◌∙◌, Option-cases, ℕ_discrete,
}
use weng_shi_os.Base.Mem.{Apart}
use weng_shi_os.Ext2.Bytes.{overlay}
use weng_shi_os.Ext2.Types.{Inode, FsInstance, inode_of, inode_bytes}
use weng_shi_os.Ext2.Blocks.{
  read_block, write_block, has_buffer, inode_size, group_of_inode, inode_block_num, inode_offset,
  byte_offset_in_table, read_inode, write_inode,
}
use weng_shi_os.Ext2.Codec.{
  IsInode, length-inode_bytes, inode_of-inode_bytes, length-overlay, take-overlay,
  take-overlay_elsewhere,
}
use weng_shi_os.Ext2.Places.{IsVolume, inode_offset-fits, disjoint_inodes}
use weng_shi_os.Ext2.Device.{
  length-read_block, read_block-write_block_self, read_block-write_block_ne,
}

module _ {W : Type 0} where
  -- A write that went well went through all its steps.
  record Wrote (fs : FsInstance W) (n : ℕ) (i : Inode) : Type 0 where
    buf : List ℕ
    not_zero : (n == 0) ≡ false
    in_group : leb fs.group_count (group_of_inode fs n) ≡ false
    room : has_buffer fs ≡ true
    was : read_block fs (inode_block_num fs n) ≡ some buf
    is :
        write_inode fs n i
        ≡ write_block fs (inode_block_num fs n) (overlay buf (inode_offset fs n) (inode_bytes i))

  wrote : (fs : FsInstance W) (n : ℕ) (i : Inode) → (write_inode fs n i).1 ≡ true → Wrote fs n i
  unfolding write_inode
  wrote fs n i ok = elim (Option-cases (read_block fs (inode_block_num fs n))) [
    | inl e ↦ absurd (ground (arith, e, ok))
    | inr (buf, e) ↦ record {
      buf = buf;
      not_zero = ground (arith, ok);
      in_group = ground (arith, ok);
      room = ground (arith, ok);
      was = e;
      is = ground (arith, e, ok);
    }
  ]

  read_inode_found :
      (fs : FsInstance W) (n : ℕ) (buf : List ℕ)
      → (n == 0) ≡ false
      → leb fs.group_count (group_of_inode fs n) ≡ false
      → has_buffer fs ≡ true
      → read_block fs (inode_block_num fs n) ≡ some buf
      → 128 ≤ inode_size fs
      → read_inode fs n ≡ some (inode_of (take 128 (drop (inode_offset fs n) buf)))
  unfolding read_inode
  read_inode_found fs n buf a b c d e = ground (arith, d)

  -- The bytes of an inode in a block where another was written.
  read_past :
      (fs : FsInstance W) (n m : ℕ) (i : Inode) (buf : List ℕ)
      → IsVolume fs
      → IsInode i
      → length buf ≡ fs.block_size
      → inode_offset fs n + inode_size fs ≤ fs.block_size
      → Apart (inode_offset fs m) (inode_size fs) (inode_offset fs n) (inode_size fs)
      → take 128 (drop (inode_offset fs m) (overlay buf (inode_offset fs n) (inode_bytes i)))
        ≡ take 128 (drop (inode_offset fs m) buf)
  read_past fs n m i buf v wf l fits apart =
      take-overlay_elsewhere buf (inode_offset fs n) (inode_bytes i) (inode_offset fs m) 128
        (omega (arith, l, fits, v.inode_room, length-inode_bytes i wf)) (narrow apart)
    where
      narrow :
          Apart (inode_offset fs m) (inode_size fs) (inode_offset fs n) (inode_size fs)
          → Apart (inode_offset fs m) 128 (inode_offset fs n) (length (inode_bytes i))
      narrow (inl a) = inl (omega (arith, a, v.inode_room))
      narrow (inr a) = inr (omega (arith, a, v.inode_room, length-inode_bytes i wf))

  read_inode_lost :
      (fs : FsInstance W) (n : ℕ)
      → read_block fs (inode_block_num fs n) ≡ none
      → read_inode fs n ≡ none
  unfolding read_inode
  read_inode_lost fs n e = ground (arith, e)

  -- A number of an inode that the volume has.
  pub record IsNumber (fs : FsInstance W) (n : ℕ) : Type 0 where
    pub positive : 0 < n
    pub word : n < 2 ^ 32
    pub in_group : group_of_inode fs n < fs.group_count

  module _ (fs : FsInstance W) (n : ℕ) (i : Inode) (v : IsVolume fs) (wf : IsInode i)
      (w : Wrote fs n i) (ok : (write_inode fs n i).1 ≡ true) where
    abbrev written : List ℕ
    written = overlay w.buf (inode_offset fs n) (inode_bytes i)

    abbrev gs : FsInstance W
    gs = (write_block fs (inode_block_num fs n) written).0

    room_after : has_buffer gs ≡ true
    unfolding write_block
    room_after = v.device.heap _ _ _ _ _ ∙ w.room

    length_was : length w.buf ≡ fs.block_size
    length_was = length-read_block fs v.device _ w.buf w.was ∙ v.whole

    stored : read_block gs (inode_block_num fs n) ≡ some written
    stored =
        read_block-write_block_self fs v.device (inode_block_num fs n) written
          (length-overlay w.buf (inode_offset fs n) (inode_bytes i) (
              omega (
                arith,
                length_was,
                inode_offset-fits fs v n,
                v.inode_room,
                length-inode_bytes i wf,
              ))
            ∙ length_was
            ∙ sym v.whole)
          (ap (λ (r : FsInstance W × Bool). r.1) (sym w.is) ∙ ok)

    read_self : read_inode gs n ≡ some i
    unfolding write_block inode_block_num inode_offset byte_offset_in_table inode_size
    read_self =
        read_inode_found gs n written w.not_zero w.in_group room_after stored v.inode_room
        ∙ ap (λ (b : List ℕ). some (inode_of b))
            (take-overlay w.buf (inode_offset fs n) 128 (inode_bytes i)
              (omega (arith, length_was, inode_offset-fits fs v n)) (length-inode_bytes i wf))
        ∙ ap some (inode_of-inode_bytes i wf)

    module _ (m : ℕ) (hn : IsNumber fs n) (hm : IsNumber fs m) (ne : n ≢ m) where
      nonzero : (m == 0) ≡ false
      nonzero = ground (arith, hm.positive)

      grouped : leb fs.group_count (group_of_inode fs m) ≡ false
      grouped = ground (arith, hm.in_group)

      other_block : inode_block_num fs n ≢ inode_block_num fs m → read_inode gs m ≡ read_inode fs m
      unfolding write_block inode_block_num inode_offset byte_offset_in_table inode_size
      other_block nb =
          let same = read_block-write_block_ne fs v.device _ _ written nb in
          elim (Option-cases (read_block fs (inode_block_num fs m))) [
            | inl e ↦ read_inode_lost gs m (same ∙ e) ∙ sym (read_inode_lost fs m e)
            | inr (buf, e) ↦
                read_inode_found gs m buf nonzero grouped room_after (same ∙ e) v.inode_room
                ∙ sym (read_inode_found fs m buf nonzero grouped w.room e v.inode_room)
          ]

      same_block : inode_block_num fs n ≡ inode_block_num fs m → read_inode gs m ≡ read_inode fs m
      unfolding write_block inode_block_num inode_offset byte_offset_in_table inode_size
      same_block sb =
          let apart =
            disjoint_inodes fs v n m hn.positive hn.word hm.positive hm.word ne hn.in_group
              hm.in_group sb in
          read_inode_found gs m written nonzero grouped room_after
            (ap (read_block gs) (sym sb) ∙ stored) v.inode_room
          ∙ ap (λ (b : List ℕ). some (inode_of b))
              (read_past fs n m i w.buf v wf length_was (inode_offset-fits fs v n) apart)
          ∙ sym (
              read_inode_found fs m w.buf nonzero grouped w.room
                (ap (read_block fs) (sym sb) ∙ w.was) v.inode_room)

      read_other : read_inode gs m ≡ read_inode fs m
      read_other = elim (ℕ_discrete (inode_block_num fs n) (inode_block_num fs m)) [
        | yes sb ↦ same_block sb
        | no nb ↦ other_block nb
      ]

  -- On a volume that the format allows, after a write of one inode that went well, that inode is
  -- read as it was written and every other inode as before the write.
  pub read_inode-write_inode :
      (fs : FsInstance W) (n m : ℕ) (i : Inode)
      → IsVolume fs
      → IsInode i
      → IsNumber fs n
      → IsNumber fs m
      → (write_inode fs n i).1 ≡ true
      → read_inode (write_inode fs n i).0 m ≡ (if n == m then some i else read_inode fs m)
  read_inode-write_inode fs n m i v wf hn hm ok =
      let w = wrote fs n i ok in
      ap (λ (r : FsInstance W × Bool). read_inode r.0 m) w.is ∙ elim (ℕ_discrete n m) [
        | yes e ↦
            subst
              (λ (k : ℕ).
                read_inode (gs fs n i v wf w ok) k ≡ (if n == k then some i else read_inode fs k))
              e (read_self fs n i v wf w ok ∙ ground arith)
        | no ne ↦ read_other fs n i v wf w ok m hn hm ne ∙ ground (arith, ne)
      ]
