-- ===== src/Ext2/Transfer.antt =====
-- `read` and `write` of src/fs/ext2/ext2.cpp: a transfer goes block by block.
use weng_shi_os.Base.{
  ℕ, zero, suc, ◌-◌, ◌/◌, ◌%◌, ◌^◌, Bool, true, false, not, ◌==◌, ◌||◌, ltb, leb, List, [], ◌++◌,
  length, take, drop, replicate, Option, none, some, if◌then◌else◌,
}
use weng_shi_os.Base.Int.{ℤ, pos, negsuc}
use weng_shi_os.Base.Word.{add64}
use weng_shi_os.Ext2.Bytes.{overlay}
use weng_shi_os.Ext2.Types.{Inode, FsInstance}
use weng_shi_os.Ext2.Blocks.{read_block, write_block, write_inode, has_buffer}
use weng_shi_os.Ext2.Index.{inode_block_at_or_alloc}
use weng_shi_os.Ext2.Volume.{PrivateData, Handle}

-- The bytes of a round: to the end of the block or of the transfer.
unfoldable pub chunk_size : ℕ → ℕ → ℕ → ℕ
chunk_size block_size offset_in_block left =
    if ltb left (block_size - offset_in_block) then left else block_size - offset_in_block

-- What a loop leaves: the instance, the inode, the bytes that came over, and whether no read failed.
pub record Moved (W : Type 0) : Type 0 where
  pub fs : FsInstance W
  pub inode : Inode
  pub bytes : List ℕ
  pub intact : Bool

abbrev put_back : Handle → PrivateData → Inode → Handle
put_back handle priv inode = record handle { fs_private = some (record priv { inode = inode }) }

module _ {W : Type 0} where
  -- The bytes of one round of `read`, zeros where the file has no block.
  unfoldable pub read_chunk : FsInstance W → ℕ → ℕ → ℕ → Option (List ℕ)
  unfolding read_block
  read_chunk fs phys_block offset_in_block chunk =
      if phys_block == 0 then some (replicate chunk 0) else elim (read_block fs phys_block) [
        | none ↦ none
        | some block_buf ↦ some (take chunk (drop offset_in_block block_buf))
      ]

  -- A round moves at least a byte, so that as many rounds as bytes are enough.
  unfoldable pub read_loop : ℕ → FsInstance W → Inode → ℕ → ℕ → List ℕ → Moved W
  unfolding inode_block_at_or_alloc chunk_size read_chunk
  read_loop zero fs inode file_pos left got = record {
    fs = fs;
    inode = inode;
    bytes = got;
    intact = true;
  }
  read_loop (suc n) fs inode file_pos left got =
      let e = inode_block_at_or_alloc fs inode ((file_pos / fs.block_size) % 2 ^ 32) in
      let chunk = chunk_size fs.block_size (file_pos % fs.block_size) left in
      elim (left == 0) [
        | true ↦ record { fs = fs; inode = inode; bytes = got; intact = true }
        | false ↦ elim (read_chunk e.0 e.2 (file_pos % fs.block_size) chunk) [
          | none ↦ record { fs = e.0; inode = e.1; bytes = got; intact = false }
          | some bytes ↦ read_loop n e.0 e.1 (add64 file_pos chunk) (left - chunk) (got ++ bytes)
        ]
      ]

  -- The bytes that are put into the buffer, and the result. A handle has its data while it is open.
  unfoldable pub read : FsInstance W → Handle → ℕ → ℕ → FsInstance W × Handle × List ℕ × ℤ
  unfolding read_loop
  read fs handle offset count = elim handle.fs_private [
    | none ↦ (fs, handle, [], negsuc 0)
    | some priv ↦
        let size = priv.inode.size in
        let count' = if ltb size (add64 offset count) then size - offset else count in
        if leb size offset
        then (fs, handle, [], pos 0)
        else if not (has_buffer fs)
        then (fs, handle, [], negsuc 0)
        else let m = read_loop count' fs priv.inode offset count' [] in
          (
            m.fs,
            put_back handle priv m.inode,
            m.bytes,
            if m.intact || not (length m.bytes == 0) then pos (length m.bytes) else negsuc 0,
          )
  ]

  -- The new bytes of a block, of which the others are read first where there are some.
  unfoldable pub merge_chunk : FsInstance W → ℕ → ℕ → List ℕ → Option (List ℕ)
  unfolding read_block
  merge_chunk fs phys_block offset_in_block bytes =
      if not (offset_in_block == 0) || not (length bytes == fs.block_size)
      then elim (read_block fs phys_block) [
        | none ↦ none
        | some block_buf ↦ some (overlay block_buf offset_in_block bytes)
      ]
      else some bytes

  -- One round of `write`: whether it moved its bytes.
  unfoldable pub write_chunk : FsInstance W → ℕ → ℕ → List ℕ → FsInstance W × Bool
  unfolding merge_chunk write_block
  write_chunk fs phys_block offset_in_block bytes =
      if phys_block == 0
      then (fs, false)
      else elim (merge_chunk fs phys_block offset_in_block bytes) [
        | none ↦ (fs, false)
        | some block_buf ↦ write_block fs phys_block block_buf
      ]

  -- The loop of `write`, with the bytes left; `bytes` of its answer are those that were written.
  unfoldable pub write_loop : ℕ → FsInstance W → Inode → ℕ → List ℕ → List ℕ → Moved W
  unfolding inode_block_at_or_alloc chunk_size write_chunk
  write_loop zero fs inode file_pos src put = record {
    fs = fs;
    inode = inode;
    bytes = put;
    intact = true;
  }
  write_loop (suc n) fs inode file_pos src put =
      let e = inode_block_at_or_alloc fs inode ((file_pos / fs.block_size) % 2 ^ 32) in
      let chunk = chunk_size fs.block_size (file_pos % fs.block_size) (length src) in
      let r = write_chunk e.0 e.2 (file_pos % fs.block_size) (take chunk src) in
      elim (length src == 0) [
        | true ↦ record { fs = fs; inode = inode; bytes = put; intact = true }
        | false ↦ elim r.1 [
          | false ↦ record { fs = r.0; inode = e.1; bytes = put; intact = false }
          | true ↦
              write_loop n r.0 e.1 (add64 file_pos chunk) (drop chunk src) (put ++ take chunk src)
        ]
      ]

  -- The inode is written back, whatever was moved, and the answer of that dropped.
  unfoldable pub write : FsInstance W → Handle → ℕ → List ℕ → FsInstance W × Handle × ℤ
  unfolding write_loop write_inode
  write fs handle offset src = elim handle.fs_private [
    | none ↦ (fs, handle, negsuc 0)
    | some priv ↦
        if not (has_buffer fs)
        then (fs, handle, negsuc 0)
        else let m = write_loop (length src) fs priv.inode offset src [] in
          let new_size = add64 offset (length m.bytes) in
          let grows = ltb (Inode.size m.inode) new_size in
          let inode' = if grows then record m.inode { size = new_size % 2 ^ 32 } else m.inode in
          let size' = if grows then new_size % 2 ^ 32 else handle.size in
          (
            (write_inode m.fs priv.inode_num inode').0,
            record (put_back handle priv inode') { size = size' },
            pos (length m.bytes),
          )
  ]
