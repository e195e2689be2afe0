-- ===== src/Ext2/Entry.antt =====
-- Directory entries of src/fs/ext2/ext2.cpp in a block, and the two loops that every search of a
-- directory has: over the entries of a block and over the blocks.
use weng_shi_os.Base.{
  ℕ, zero, suc, ◌+◌, ◌*◌, ◌/◌, ◌%◌, ◌^◌, Bool, true, false, not, ◌==◌, ◌&&◌, ltb, List, ◌++◌,
  length, take, drop, get_or, none, some,
}
use weng_shi_os.Base.Word.{add32, sub32}
use weng_shi_os.Vfs.Types.{same_text}
use weng_shi_os.Ext2.Bytes.{le, field, overlay}
use weng_shi_os.Ext2.Types.{Inode, FsInstance}
use weng_shi_os.Ext2.Blocks.{read_block}
use weng_shi_os.Ext2.Index.{inode_block_at}

abbrev pub ft_reg_file : ℕ
ft_reg_file = 1

abbrev pub ft_dir : ℕ
ft_dir = 2

-- The members of the `DirEntryOnDisk` at an offset, and the name behind it.
abbrev pub entry_inode : List ℕ → ℕ → ℕ
entry_inode buf off = field off 4 buf

abbrev pub rec_len : List ℕ → ℕ → ℕ
rec_len buf off = field (off + 4) 2 buf

abbrev pub name_len : List ℕ → ℕ → ℕ
name_len buf off = field (off + 6) 1 buf

abbrev pub file_type : List ℕ → ℕ → ℕ
file_type buf off = field (off + 7) 1 buf

abbrev pub entry_name : List ℕ → ℕ → List ℕ
entry_name buf off = take (name_len buf off) (drop (off + 8) buf)

-- An entry written member by member, with its name.
unfoldable pub put_entry : List ℕ → ℕ → ℕ → ℕ → ℕ → List ℕ → List ℕ
put_entry buf off inode len kind name =
    overlay buf off
      (le 4 inode ++ le 2 len ++ le 1 (length name) ++ le 1 kind ++ take (length name % 2 ^ 8) name)

-- `(base + 3) & ~3u`
unfoldable pub dir_entry_min_size : ℕ → ℕ
dir_entry_min_size len = (8 + len + 3) / 4 * 4

-- The name is compared as far as it is long, and has no NUL.
unfoldable pub is_named : List ℕ → ℕ → List ℕ → Bool
is_named buf off name =
    not (entry_inode buf off == 0)
    && (name_len buf off == length name)
    && same_text (entry_name buf off) name

-- Neither unused nor `.` nor `..`.
unfoldable pub is_child : List ℕ → ℕ → Bool
is_child buf off =
    let is_dot = (name_len buf off == 1) && (get_or buf (off + 8) 0 == 46) in
    let is_dotdot =
      (name_len buf off == 2) && (get_or buf (off + 8) 0 == 46) && (get_or buf (off + 9) 0 == 46) in
    not (entry_inode buf off == 0) && (not is_dot && not is_dotdot)

-- What the body of a loop answers: the loop's result, or the state of the next round.
pub data Visit (S A : Type 0) : Type 0 where
  done : A → Visit S A
  next : S → Visit S A

-- The next round, unless there is a result.
abbrev pub and_then : {S A : Type 0} → Visit S A → (S → Visit S A) → Visit S A
and_then (done a) k = done a
and_then (next s) k = k s

-- The loop over the entries of a block of `size` bytes, with the rounds left. An entry is at least a
-- byte long, so that `size` rounds are enough.
unfoldable pub walk : {S A : Type 0} → (ℕ → S → Visit S A) → ℕ → List ℕ → ℕ → ℕ → S → Visit S A
walk body size buf zero off s = next s
walk body size buf (suc n) off s = elim (ltb off size && not (rec_len buf off == 0)) [
  | false ↦ next s
  | true ↦ and_then (body off s) (λ s'. walk body size buf n (add32 off (rec_len buf off)) s')
]

module _ {W : Type 0} where
  unfoldable pub num_blocks : FsInstance W → Inode → ℕ
  num_blocks fs inode = sub32 (add32 inode.size fs.block_size) 1 / fs.block_size

  -- The loop over the blocks of a directory, with the rounds left: blocks that are missing or cannot
  -- be read are passed over.
  unfoldable pub scan :
      {S A : Type 0} → (ℕ → List ℕ → S → Visit S A) → FsInstance W → Inode → ℕ → ℕ → S → Visit S A
  unfolding inode_block_at read_block
  scan body fs inode zero b s = next s
  scan body fs inode (suc n) b s =
      let phys_block = inode_block_at fs inode b in
      elim (phys_block == 0) [
        | true ↦ scan body fs inode n (b + 1) s
        | false ↦ elim (read_block fs phys_block) [
          | none ↦ scan body fs inode n (b + 1) s
          | some buf ↦ and_then (body phys_block buf s) (λ s'. scan body fs inode n (b + 1) s')
        ]
      ]
