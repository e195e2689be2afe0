-- ===== src/Ext2/Alloc.antt =====
-- The bitmaps of src/fs/ext2/ext2.cpp: blocks and inodes are taken and given back.
use weng_shi_os.Base.{
  ℕ, zero, suc, ◌+◌, ◌-◌, ◌/◌, ◌%◌, ◌^◌, Bool, true, false, ◌==◌, ltb, leb, List, set, Option, none,
  some, if◌then◌else◌,
}
use weng_shi_os.Base.Word.{add32, sub32, mul32}
use weng_shi_os.Pmm.{set_bit, clear_bit, test_bit}
use weng_shi_os.Ext2.Types.{FsInstance}
use weng_shi_os.Ext2.Blocks.{
  read_block, write_block, has_buffer, group_of_inode, group_at, write_tables,
}

-- The first free bit of the next `n`, from bit `i`.
unfoldable pub find_free : ℕ → ℕ → List ℕ → Option ℕ
find_free zero i bitmap = none
find_free (suc n) i bitmap = elim (test_bit bitmap i) [
  | false ↦ some i
  | true ↦ find_free n (i + 1) bitmap
]

module _ {W : Type 0} where
  unfoldable pub blocks_in_group : FsInstance W → ℕ → ℕ
  blocks_in_group fs group =
      let remaining =
        sub32 (sub32 fs.sb.blocks_count fs.sb.first_data_block)
          (mul32 group fs.sb.block_per_group) in
      if ltb remaining fs.sb.block_per_group then remaining else fs.sb.block_per_group

  -- The counts of free blocks after one is taken or given back, of 16 and of 32 bits.
  abbrev pub count_block : FsInstance W → ℕ → ℕ → ℕ → FsInstance W
  count_block fs group in_group in_all = record fs {
    groups = set fs.groups group (record (group_at fs group) {
      free_blocks_count = ((group_at fs group).free_blocks_count + in_group) % 2 ^ 16;
    });
    sb = record fs.sb { free_blocks_count = add32 fs.sb.free_blocks_count in_all };
  }

  abbrev pub count_inode : FsInstance W → ℕ → ℕ → ℕ → FsInstance W
  count_inode fs group in_group in_all = record fs {
    groups = set fs.groups group (record (group_at fs group) {
      free_inodes_count = ((group_at fs group).free_inodes_count + in_group) % 2 ^ 16;
    });
    sb = record fs.sb { free_inodes_count = add32 fs.sb.free_inodes_count in_all };
  }

  unfoldable pub alloc_block_in_group : FsInstance W → ℕ → FsInstance W × ℕ
  unfolding read_block write_block blocks_in_group find_free set_bit write_tables
  alloc_block_in_group fs group =
      if leb fs.group_count group
      then (fs, 0)
      else if (group_at fs group).free_blocks_count == 0
      then (fs, 0)
      else if has_buffer fs
      then elim (read_block fs (group_at fs group).block_bitmap) [
        | none ↦ (fs, 0)
        | some bitmap ↦ elim (find_free (blocks_in_group fs group) 0 bitmap) [
          | none ↦ (fs, 0)
          | some free_bit ↦
              let r = write_block fs (group_at fs group).block_bitmap (set_bit bitmap free_bit) in
              elim r.1 [
                | false ↦ (r.0, 0)
                | true ↦ (
                  write_tables (count_block r.0 group (2 ^ 16 - 1) (2 ^ 32 - 1)),
                  add32 (add32 fs.sb.first_data_block (mul32 group fs.sb.block_per_group)) free_bit,
                )
              ]
        ]
      ]
      else (fs, 0)

  unfoldable pub alloc_inode_in_group : FsInstance W → ℕ → FsInstance W × ℕ
  unfolding read_block write_block find_free set_bit write_tables
  alloc_inode_in_group fs group =
      if leb fs.group_count group
      then (fs, 0)
      else if (group_at fs group).free_inodes_count == 0
      then (fs, 0)
      else if has_buffer fs
      then elim (read_block fs (group_at fs group).inode_bitmap) [
        | none ↦ (fs, 0)
        | some bitmap ↦ elim (find_free fs.sb.inodes_per_group 0 bitmap) [
          | none ↦ (fs, 0)
          | some free_bit ↦
              let r = write_block fs (group_at fs group).inode_bitmap (set_bit bitmap free_bit) in
              elim r.1 [
                | false ↦ (r.0, 0)
                | true ↦ (
                  write_tables (count_inode r.0 group (2 ^ 16 - 1) (2 ^ 32 - 1)),
                  add32 (add32 (mul32 group fs.sb.inodes_per_group) free_bit) 1,
                )
              ]
        ]
      ]
      else (fs, 0)

  -- The loops over the groups, with the rounds left and the round. The hint is always 0.
  unfoldable pub alloc_block_loop : ℕ → ℕ → ℕ → FsInstance W → FsInstance W × ℕ
  unfolding alloc_block_in_group
  alloc_block_loop zero group_hint i fs = (fs, 0)
  alloc_block_loop (suc n) group_hint i fs =
      let r = alloc_block_in_group fs (add32 group_hint i % fs.group_count) in
      elim (r.1 == 0) [ false ↦ r | true ↦ alloc_block_loop n group_hint (i + 1) r.0 ]

  unfoldable pub alloc_block : FsInstance W → ℕ → FsInstance W × ℕ
  unfolding alloc_block_loop
  alloc_block fs group_hint = alloc_block_loop fs.group_count group_hint 0 fs

  unfoldable pub alloc_inode_loop : ℕ → ℕ → ℕ → FsInstance W → FsInstance W × ℕ
  unfolding alloc_inode_in_group
  alloc_inode_loop zero group_hint i fs = (fs, 0)
  alloc_inode_loop (suc n) group_hint i fs =
      let r = alloc_inode_in_group fs (add32 group_hint i % fs.group_count) in
      elim (r.1 == 0) [ false ↦ r | true ↦ alloc_inode_loop n group_hint (i + 1) r.0 ]

  unfoldable pub alloc_inode : FsInstance W → ℕ → FsInstance W × ℕ
  unfolding alloc_inode_loop
  alloc_inode fs group_hint = alloc_inode_loop fs.group_count group_hint 0 fs

  unfoldable pub free_block : FsInstance W → ℕ → FsInstance W × Bool
  unfolding read_block write_block clear_bit write_tables
  free_block fs block_num =
      let relative = sub32 block_num fs.sb.first_data_block in
      let group = relative / fs.sb.block_per_group in
      if block_num == 0
      then (fs, false)
      else if leb fs.group_count group
      then (fs, false)
      else if has_buffer fs
      then elim (read_block fs (group_at fs group).block_bitmap) [
        | none ↦ (fs, false)
        | some bitmap ↦
            let r =
              write_block fs (group_at fs group).block_bitmap
                (clear_bit bitmap (relative % fs.sb.block_per_group)) in
            elim r.1 [
              | false ↦ (r.0, false)
              | true ↦ (write_tables (count_block r.0 group 1 1), true)
            ]
      ]
      else (fs, false)

  unfoldable pub free_inode : FsInstance W → ℕ → FsInstance W × Bool
  unfolding read_block write_block clear_bit write_tables
  free_inode fs inode_num =
      let group = group_of_inode fs inode_num in
      if inode_num == 0
      then (fs, false)
      else if leb fs.group_count group
      then (fs, false)
      else if has_buffer fs
      then elim (read_block fs (group_at fs group).inode_bitmap) [
        | none ↦ (fs, false)
        | some bitmap ↦
            let r =
              write_block fs (group_at fs group).inode_bitmap
                (clear_bit bitmap (sub32 inode_num 1 % fs.sb.inodes_per_group)) in
            elim r.1 [
              | false ↦ (r.0, false)
              | true ↦ (write_tables (count_inode r.0 group 1 1), true)
            ]
      ]
      else (fs, false)
