-- ===== src/Ext2/Index.antt =====
-- The blocks of an inode, of src/fs/ext2/ext2.cpp: twelve in the inode and the rest in one block of
-- numbers.
use weng_shi_os.Base.{
  ℕ, zero, suc, ◌+◌, ◌-◌, ◌*◌, ◌/◌, Bool, true, false, ◌==◌, ◌||◌, ltb, leb, List, get_or, set,
  replicate, none, some, if◌then◌else◌,
}
use weng_shi_os.Base.Word.{add32}
use weng_shi_os.Ext2.Bytes.{le, field, overlay}
use weng_shi_os.Ext2.Types.{Inode, FsInstance}
use weng_shi_os.Ext2.Blocks.{read_block, write_block, has_buffer}
use weng_shi_os.Ext2.Alloc.{alloc_block, free_block}

-- `indirect[index]` of a buffer, and the buffer with that number written.
abbrev pub word_at : List ℕ → ℕ → ℕ
word_at buf index = field (4 * index) 4 buf

abbrev pub set_word : List ℕ → ℕ → ℕ → List ℕ
set_word buf index v = overlay buf (4 * index) (le 4 v)

abbrev pub block_of : Inode → ℕ → ℕ
block_of inode index = get_or inode.block index 0

module _ {W : Type 0} where
  unfoldable pub inode_block_at : FsInstance W → Inode → ℕ → ℕ
  unfolding read_block
  inode_block_at fs inode index =
      if ltb index 12
      then block_of inode index
      else if leb (fs.block_size / 4) (index - 12) || (block_of inode 12 == 0)
      then 0
      else if has_buffer fs
      then elim (read_block fs (block_of inode 12)) [
        | none ↦ 0
        | some indirect ↦ word_at indirect (index - 12)
      ]
      else 0

  -- `inode->block[index] = block`, with the sectors counted.
  abbrev pub with_block : FsInstance W → Inode → ℕ → ℕ → Inode
  with_block fs inode index block = record inode {
    block = set inode.block index block;
    blocks = add32 inode.blocks (fs.block_size / 512);
  }

  -- The block of numbers, taken and zeroed where the inode has none: whether the call goes on.
  unfoldable pub ensure_indirect : FsInstance W → Inode → FsInstance W × Inode × Bool
  unfolding alloc_block write_block
  ensure_indirect fs inode =
      if block_of inode 12 == 0
      then (let r = alloc_block fs 0 in
          if r.1 == 0
          then (r.0, inode, false)
          else if has_buffer r.0
          then (
            (write_block r.0 r.1 (replicate r.0.block_size 0)).0,
            with_block r.0 inode 12 r.1,
            true,
          )
          else (r.0, inode, false))
      else (fs, inode, true)

  -- The number in the block of numbers, a new one where it is 0. A failed write is not noticed.
  unfoldable pub indirect_or_alloc : FsInstance W → Inode → ℕ → FsInstance W × Inode × ℕ
  unfolding read_block alloc_block write_block
  indirect_or_alloc fs inode index =
      if has_buffer fs
      then elim (read_block fs (block_of inode 12)) [
        | none ↦ (fs, inode, 0)
        | some indirect ↦
            if word_at indirect index == 0
            then (let r = alloc_block fs 0 in
                if r.1 == 0 then (r.0, inode, 0) else (
                  (write_block r.0 (block_of inode 12) (set_word indirect index r.1)).0,
                  record inode { blocks = add32 inode.blocks (fs.block_size / 512) },
                  r.1,
                ))
            else (fs, inode, word_at indirect index)
      ]
      else (fs, inode, 0)

  unfoldable pub inode_block_at_or_alloc : FsInstance W → Inode → ℕ → FsInstance W × Inode × ℕ
  unfolding alloc_block ensure_indirect indirect_or_alloc
  inode_block_at_or_alloc fs inode index =
      if ltb index 12
      then (if block_of inode index == 0
          then (let r = alloc_block fs 0 in
              if r.1 == 0 then (r.0, inode, 0) else (r.0, with_block fs inode index r.1, r.1))
          else (fs, inode, block_of inode index))
      else (if leb (fs.block_size / 4) (index - 12)
          then (fs, inode, 0)
          else let e = ensure_indirect fs inode in
            if e.2 then indirect_or_alloc e.0 e.1 (index - 12) else (e.0, e.1, 0))

  -- The loop over the twelve, with the rounds left and the index.
  unfoldable pub free_direct : ℕ → ℕ → FsInstance W → Inode → FsInstance W × Inode
  unfolding free_block
  free_direct zero i fs inode = (fs, inode)
  free_direct (suc n) i fs inode =
      let fs' = if block_of inode i == 0 then fs else (free_block fs (block_of inode i)).0 in
      let inode' =
        if block_of inode i == 0 then inode else record inode { block = set inode.block i 0 } in
      free_direct n (i + 1) fs' inode'

  -- The loop over the block of numbers.
  unfoldable pub free_numbers : ℕ → ℕ → FsInstance W → List ℕ → FsInstance W
  unfolding free_block
  free_numbers zero i fs indirect = fs
  free_numbers (suc n) i fs indirect =
      let fs' = if word_at indirect i == 0 then fs else (free_block fs (word_at indirect i)).0 in
      free_numbers n (i + 1) fs' indirect

  unfoldable pub free_indirect : FsInstance W → Inode → FsInstance W × Inode
  unfolding read_block free_block free_numbers
  free_indirect fs inode =
      if block_of inode 12 == 0
      then (fs, inode)
      else let fs' =
          (if has_buffer fs
            then elim (read_block fs (block_of inode 12)) [
              | none ↦ fs
              | some indirect ↦ free_numbers (fs.block_size / 4) 0 fs indirect
            ]
            else fs) in
        ((free_block fs' (block_of inode 12)).0, record inode { block = set inode.block 12 0 })

  unfoldable pub free_all_inode_blocks : FsInstance W → Inode → FsInstance W × Inode
  unfolding free_direct free_indirect
  free_all_inode_blocks fs inode =
      let d = free_direct 12 0 fs inode in
      let r = free_indirect d.0 d.1 in (r.0, record r.1 { size = 0; blocks = 0 })
