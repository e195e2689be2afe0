-- ===== src/Ext2/Dir.antt =====
-- The directories of src/fs/ext2/ext2.cpp: finding, adding, removing and listing entries.
use Prim.Native.Nat.{bit_and}
use weng_shi_os.Base.{
  ℕ, ◌+◌, ◌%◌, ◌^◌, Bool, true, false, not, ◌==◌, leb, List, length, take, replicate, Option, none,
  some, if◌then◌else◌,
}
use weng_shi_os.Base.Int.{ℤ, pos, negsuc}
use weng_shi_os.Base.Word.{add32, sub32}
use weng_shi_os.Vfs.Types.{DirEntry}
use weng_shi_os.Ext2.Bytes.{le, overlay}
use weng_shi_os.Ext2.Types.{Inode, FsInstance, s_ifdir, s_ifmt}
use weng_shi_os.Ext2.Blocks.{write_block, has_buffer}
use weng_shi_os.Ext2.Index.{inode_block_at_or_alloc}
use weng_shi_os.Ext2.Entry.{
  ft_dir, entry_inode, rec_len, name_len, file_type, entry_name, put_entry, dir_entry_min_size,
  is_named, is_child, Visit, done, next, walk, num_blocks, scan,
}

abbrev pub is_dir : Inode → Bool
is_dir inode = bit_and inode.mode s_ifmt == s_ifdir

-- The body of `lookupInDir`, and its loop over one block.
abbrev pub match_entry : List ℕ → List ℕ → ℕ → Unit {0} → Visit (Unit {0}) ℕ
match_entry name buf off s = if is_named buf off name then done (entry_inode buf off) else next tt

unfoldable pub lookup_block : ℕ → List ℕ → List ℕ → Visit (Unit {0}) ℕ
unfolding walk is_named
lookup_block size name buf = walk (match_entry name buf) size buf size 0 tt

unfoldable pub slack : List ℕ → ℕ → ℕ
unfolding dir_entry_min_size
slack buf off =
    sub32 (rec_len buf off)
      (if entry_inode buf off == 0 then 0 else dir_entry_min_size (name_len buf off))

-- An unused entry is filled and keeps its length; another is cut to what it uses and the new one
-- stands behind it.
unfoldable pub fill_slack : List ℕ → ℕ → List ℕ → ℕ → ℕ → List ℕ
unfolding dir_entry_min_size put_entry
fill_slack buf off name child_inode kind =
    if entry_inode buf off == 0
    then put_entry buf off child_inode (rec_len buf off) kind name
    else (let used = dir_entry_min_size (name_len buf off) in
        put_entry (overlay buf (off + 4) (le 2 used)) (off + used) child_inode
          (sub32 (rec_len buf off) used) kind name)

abbrev pub fit_entry : List ℕ → ℕ → ℕ → List ℕ → ℕ → Unit {0} → Visit (Unit {0}) (List ℕ)
fit_entry name child_inode kind buf off s =
    if leb (dir_entry_min_size (length name % 2 ^ 8)) (slack buf off)
    then done (fill_slack buf off name child_inode kind)
    else next tt

unfoldable pub insert_block : ℕ → List ℕ → ℕ → ℕ → List ℕ → Visit (Unit {0}) (List ℕ)
unfolding walk slack fill_slack dir_entry_min_size
insert_block size name child_inode kind buf =
    walk (fit_entry name child_inode kind buf) size buf size 0 tt

-- The entry's room goes to the entry before it; the first entry of a block is marked unused.
unfoldable pub drop_entry : List ℕ → ℕ → Option ℕ → List ℕ
drop_entry buf off none = overlay buf off (le 4 0)
drop_entry buf off (some prev) = overlay buf (prev + 4) (le 2 (rec_len buf prev + rec_len buf off))

abbrev pub cut_entry : List ℕ → List ℕ → ℕ → Option ℕ → Visit (Option ℕ) (List ℕ)
cut_entry name buf off prev =
    if is_named buf off name then done (drop_entry buf off prev) else next (some off)

unfoldable pub remove_block : ℕ → List ℕ → List ℕ → Visit (Option ℕ) (List ℕ)
unfolding walk is_named drop_entry
remove_block size name buf = walk (cut_entry name buf) size buf size 0 none

-- `seen == index`, of which the index may be negative.
abbrev is_at : ℕ → ℤ → Bool
is_at seen (pos k) = seen == k
is_at seen (negsuc k) = false

abbrev pub list_entry : ℤ → List ℕ → ℕ → ℕ → Visit ℕ DirEntry
list_entry index buf off seen =
    if is_child buf off
    then (if is_at seen index
        then done (record {
          name = take 63 (entry_name buf off);
          is_directory = file_type buf off == ft_dir;
        })
        else next (seen + 1))
    else next seen

unfoldable pub readdir_block : ℤ → ℕ → List ℕ → ℕ → Visit ℕ DirEntry
unfolding walk is_child
readdir_block index size buf seen = walk (list_entry index buf) size buf size 0 seen

abbrev pub meet_child : List ℕ → ℕ → Unit {0} → Visit (Unit {0}) (Unit {0})
meet_child buf off s = if is_child buf off then done tt else next tt

unfoldable pub children_block : ℕ → List ℕ → Visit (Unit {0}) (Unit {0})
unfolding walk is_child
children_block size buf = walk (meet_child buf) size buf size 0 tt

module _ {W : Type 0} where
  -- 0 where the name is not there.
  unfoldable pub lookup_in_dir : FsInstance W → Inode → List ℕ → ℕ
  unfolding scan num_blocks lookup_block
  lookup_in_dir fs dir_inode name =
      if not (is_dir dir_inode)
      then 0
      else if has_buffer fs
      then elim (scan (λ b buf s. lookup_block fs.block_size name buf) fs dir_inode
          (num_blocks fs dir_inode) 0 tt) [ done inode ↦ inode | next s ↦ 0 ]
      else 0

  -- The entry in a block of its own, behind the others.
  unfoldable pub append_block : FsInstance W → Inode → List ℕ → ℕ → ℕ → FsInstance W × Inode × Bool
  unfolding inode_block_at_or_alloc write_block put_entry num_blocks
  append_block fs dir_inode name child_inode kind =
      let e = inode_block_at_or_alloc fs dir_inode (num_blocks fs dir_inode) in
      if e.2 == 0
      then (e.0, e.1, false)
      else let r =
          write_block e.0 e.2
            (put_entry (replicate fs.block_size 0) 0 child_inode fs.block_size kind name) in
        if r.1
        then (r.0, record e.1 { size = add32 (Inode.size e.1) fs.block_size }, true)
        else (r.0, e.1, false)

  -- Where an entry fits, the number of the block and its new bytes.
  abbrev pub insert_at :
      FsInstance W → List ℕ → ℕ → ℕ → ℕ → List ℕ → Unit {0} → Visit (Unit {0}) (ℕ × List ℕ)
  insert_at fs name child_inode kind phys_block buf s =
      elim (insert_block fs.block_size name child_inode kind buf) [
        | done buf' ↦ done (phys_block, buf')
        | next s' ↦ next s'
      ]

  unfoldable pub insert_dir_entry :
      FsInstance W → Inode → List ℕ → ℕ → ℕ → FsInstance W × Inode × Bool
  unfolding scan num_blocks insert_block write_block append_block
  insert_dir_entry fs dir_inode name child_inode kind =
      if has_buffer fs
      then elim (scan (insert_at fs name child_inode kind) fs dir_inode (num_blocks fs dir_inode) 0
          tt) [
            | done place ↦ let r = write_block fs place.0 place.1 in (r.0, dir_inode, r.1)
            | next s ↦ append_block fs dir_inode name child_inode kind
          ]
      else (fs, dir_inode, false)

  abbrev pub remove_at :
      FsInstance W → List ℕ → ℕ → List ℕ → Unit {0} → Visit (Unit {0}) (ℕ × List ℕ)
  remove_at fs name phys_block buf s = elim (remove_block fs.block_size name buf) [
    | done buf' ↦ done (phys_block, buf')
    | next s' ↦ next tt
  ]

  unfoldable pub remove_dir_entry : FsInstance W → Inode → List ℕ → FsInstance W × Bool
  unfolding scan num_blocks remove_block write_block
  remove_dir_entry fs dir_inode name =
      if has_buffer fs
      then elim (scan (remove_at fs name) fs dir_inode (num_blocks fs dir_inode) 0 tt) [
        | done place ↦ write_block fs place.0 place.1
        | next s ↦ (fs, false)
      ]
      else (fs, false)

  -- The loops of `readdir` and of `rmdirPath` over the blocks.
  unfoldable pub find_child : FsInstance W → Inode → ℤ → Option DirEntry
  unfolding scan num_blocks readdir_block
  find_child fs dir_inode index =
      elim (scan (λ b buf seen. readdir_block index fs.block_size buf seen) fs dir_inode
        (num_blocks fs dir_inode) 0 0) [ done entry ↦ some entry | next seen ↦ none ]

  unfoldable pub has_children : FsInstance W → Inode → Bool
  unfolding scan num_blocks children_block
  has_children fs dir_inode =
      elim (scan (λ b buf s. children_block fs.block_size buf) fs dir_inode
        (num_blocks fs dir_inode) 0 tt) [ done s ↦ true | next s ↦ false ]
