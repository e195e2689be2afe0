-- ===== src/Ext2/Blocks.antt =====
-- Blocks and inodes of src/fs/ext2/ext2.cpp: where they stand on the device, and the tables that are
-- written back.
use weng_shi_os.Base.{
  ℕ, zero, suc, ◌*◌, ◌/◌, ◌%◌, Bool, true, false, ◌==◌, ltb, leb, List, take, drop, get_or,
  replicate, Option, none, some, if◌then◌else◌,
}
use weng_shi_os.Base.Word.{add32, sub32, mul32}
use weng_shi_os.Ext2.Bytes.{overlay}
use weng_shi_os.Ext2.Superblock.{superblock_bytes}
use weng_shi_os.Ext2.Types.{
  GroupDesc, Inode, FsInstance, no_group, groups_bytes, inode_of, inode_bytes,
}

module _ {W : Type 0} where
  unfoldable pub sectors_per_block : FsInstance W → ℕ
  sectors_per_block fs = fs.block_size / fs.dev.sector_size

  -- The product of two 32-bit numbers fits the 64 bits of an lba.
  unfoldable pub read_block : FsInstance W → ℕ → Option (List ℕ)
  unfolding sectors_per_block
  read_block fs block_num =
      fs.dev.read fs.world (block_num * sectors_per_block fs) (sectors_per_block fs)

  unfoldable pub write_block : FsInstance W → ℕ → List ℕ → FsInstance W × Bool
  unfolding sectors_per_block
  write_block fs block_num buf =
      let r = fs.dev.write fs.world (block_num * sectors_per_block fs) (sectors_per_block fs) buf in
      (record fs { world = r.0 }, r.1)

  -- `Heap::kmalloc` of a block answers a buffer.
  abbrev pub has_buffer : FsInstance W → Bool
  has_buffer fs = fs.dev.kmalloc fs.world fs.block_size

  unfoldable pub inode_size : FsInstance W → ℕ
  inode_size fs = if fs.sb.inode_size == 0 then 128 else fs.sb.inode_size

  abbrev pub group_of_inode : FsInstance W → ℕ → ℕ
  group_of_inode fs inode_num = sub32 inode_num 1 / fs.sb.inodes_per_group

  abbrev pub group_at : FsInstance W → ℕ → GroupDesc
  group_at fs group = get_or fs.groups group no_group

  -- Where an inode stands in the table of its group.
  unfoldable pub byte_offset_in_table : FsInstance W → ℕ → ℕ
  unfolding inode_size
  byte_offset_in_table fs inode_num =
      mul32 (sub32 inode_num 1 % fs.sb.inodes_per_group) (inode_size fs)

  unfoldable pub inode_block_num : FsInstance W → ℕ → ℕ
  unfolding byte_offset_in_table
  inode_block_num fs inode_num =
      add32 (group_at fs (group_of_inode fs inode_num)).inode_table
        (byte_offset_in_table fs inode_num / fs.block_size)

  unfoldable pub inode_offset : FsInstance W → ℕ → ℕ
  unfolding byte_offset_in_table
  inode_offset fs inode_num = byte_offset_in_table fs inode_num % fs.block_size

  -- Bytes of the inode that `memcpy` leaves alone, for an inode size below 128, are taken as 0.
  unfoldable pub read_inode : FsInstance W → ℕ → Option Inode
  unfolding inode_size inode_block_num inode_offset read_block
  read_inode fs inode_num =
      if inode_num == 0
      then none
      else if leb fs.group_count (group_of_inode fs inode_num)
      then none
      else if has_buffer fs
      then elim (read_block fs (inode_block_num fs inode_num)) [
        | none ↦ none
        | some buf ↦ some (
            inode_of (
              take (if ltb 128 (inode_size fs) then 128 else inode_size fs)
                (drop (inode_offset fs inode_num) buf)))
      ]
      else none

  unfoldable pub write_inode : FsInstance W → ℕ → Inode → FsInstance W × Bool
  unfolding inode_size inode_block_num inode_offset read_block write_block
  write_inode fs inode_num inode =
      if inode_num == 0
      then (fs, false)
      else if leb fs.group_count (group_of_inode fs inode_num)
      then (fs, false)
      else if has_buffer fs
      then elim (read_block fs (inode_block_num fs inode_num)) [
        | none ↦ (fs, false)
        | some buf ↦
            write_block fs (inode_block_num fs inode_num)
              (overlay buf (inode_offset fs inode_num) (inode_bytes inode))
      ]
      else (fs, false)

  unfoldable pub write_superblock : FsInstance W → FsInstance W × Bool
  write_superblock fs =
      let r = fs.dev.write fs.world 2 (1024 / fs.dev.sector_size) (superblock_bytes fs.sb) in
      (record fs { world = r.0 }, r.1)

  -- The loop of `writeGroupDescriptors`, with the rounds left; it ends at a failed write.
  unfoldable pub write_descriptor_blocks : ℕ → FsInstance W → ℕ → List ℕ → FsInstance W × Bool
  unfolding write_block
  write_descriptor_blocks zero fs block buf = (fs, true)
  write_descriptor_blocks (suc n) fs block buf =
      let r = write_block fs block (take fs.block_size buf) in
      elim r.1 [
        | true ↦ write_descriptor_blocks n r.0 (add32 block 1) (drop fs.block_size buf)
        | false ↦ (r.0, false)
      ]

  unfoldable pub bgdt_blocks_needed : FsInstance W → ℕ
  bgdt_blocks_needed fs = sub32 (add32 (mul32 32 fs.group_count) fs.block_size) 1 / fs.block_size

  unfoldable pub write_group_descriptors : FsInstance W → FsInstance W × Bool
  unfolding bgdt_blocks_needed write_descriptor_blocks
  write_group_descriptors fs =
      if fs.dev.kmalloc fs.world (mul32 (bgdt_blocks_needed fs) fs.block_size)
      then write_descriptor_blocks (bgdt_blocks_needed fs) fs (add32 fs.sb.first_data_block 1) (
          overlay (replicate (mul32 (bgdt_blocks_needed fs) fs.block_size) 0) 0
            (groups_bytes fs.groups))
      else (fs, false)

  -- Both tables, their answers dropped.
  unfoldable pub write_tables : FsInstance W → FsInstance W
  unfolding write_group_descriptors write_superblock
  write_tables fs = (write_superblock (write_group_descriptors fs).0).0
