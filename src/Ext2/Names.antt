-- ===== src/Ext2/Names.antt =====
-- `create`, `unlinkFile` and `rmdirPath` of src/fs/ext2/ext2.cpp.
use weng_shi_os.Base.{
  ℕ, ◌+◌, ◌-◌, ◌/◌, ◌%◌, ◌^◌, Bool, true, false, not, ◌==◌, leb, List, [], ◌∷◌, length, take, drop,
  replicate, Option, none, some, if◌then◌else◌,
}
use weng_shi_os.Ext2.Types.{Inode, FsInstance, s_ifdir, s_ifreg}
use weng_shi_os.Ext2.Blocks.{read_inode, write_inode, write_block, has_buffer}
use weng_shi_os.Ext2.Alloc.{alloc_block, alloc_inode, free_inode}
use weng_shi_os.Ext2.Index.{free_all_inode_blocks}
use weng_shi_os.Ext2.Entry.{ft_dir, ft_reg_file, put_entry, dir_entry_min_size}
use weng_shi_os.Ext2.Dir.{is_dir, lookup_in_dir, insert_dir_entry, remove_dir_entry, has_children}
use weng_shi_os.Ext2.Volume.{resolve_path_to_inode}

-- The loop for `last_slash`, with the place of the next character.
unfoldable pub last_slash : List ℕ → ℕ → Option ℕ → Option ℕ
last_slash [] i found = found
last_slash (c ∷ path) i found = last_slash path (i + 1) (if c == 47 then some i else found)

-- The path of the parent and the name, unless the parent's is too long or the name empty.
unfoldable pub split_path : List ℕ → Option (List ℕ × List ℕ)
unfolding last_slash
split_path path = elim (last_slash path 0 none) [
  | none ↦ if length path == 0 then none else some ([], path)
  | some plen ↦
      if leb 128 plen
      then none
      else if length (drop (plen + 1) path) == 0
      then none
      else some (take plen path, drop (plen + 1) path)
]

abbrev pub zero_inode : Inode
zero_inode = record {
  mode = 0;
  uid = 0;
  size = 0;
  atime = 0;
  ctime = 0;
  mtime = 0;
  dtime = 0;
  gid = 0;
  links_count = 0;
  blocks = 0;
  flags = 0;
  osd1 = 0;
  block = 0 ∷ 0 ∷ 0 ∷ 0 ∷ 0 ∷ 0 ∷ 0 ∷ 0 ∷ 0 ∷ 0 ∷ 0 ∷ 0 ∷ 0 ∷ 0 ∷ 0 ∷ [];
  generation = 0;
  file_acl = 0;
  dir_acl = 0;
  faddr = 0;
  osd2 = 0 ∷ 0 ∷ 0 ∷ 0 ∷ 0 ∷ 0 ∷ 0 ∷ 0 ∷ 0 ∷ 0 ∷ 0 ∷ 0 ∷ [];
}

-- The first block of a directory: `.` and, in all the rest, `..`.
unfoldable pub dot_entries : ℕ → ℕ → ℕ → List ℕ
unfolding put_entry dir_entry_min_size
dot_entries size self parent =
    put_entry (put_entry (replicate size 0) 0 self (dir_entry_min_size 1) ft_dir (46 ∷ []))
      (dir_entry_min_size 1) parent (size - dir_entry_min_size 1) ft_dir (46 ∷ 46 ∷ [])

unfoldable pub new_inode : Bool → Inode
new_inode dir = record zero_inode {
  mode = if dir then s_ifdir + 493 else s_ifreg + 420;
  links_count = if dir then 2 else 1;
}

-- What is found at a path, and the name in its parent.
pub record Target : Type 0 where
  pub parent_inode_num : ℕ
  pub parent_inode : Inode
  pub target_inode_num : ℕ
  pub target_inode : Inode

module _ {W : Type 0} where
  -- The block that a new directory gets, with its inode.
  unfoldable pub make_dots : FsInstance W → Inode → ℕ → ℕ → FsInstance W × Inode × Bool
  unfolding alloc_block write_block dot_entries
  make_dots fs inode self parent =
      let b = alloc_block fs 0 in
      if b.1 == 0
      then (b.0, inode, false)
      else if not (has_buffer b.0)
      then (b.0, inode, false)
      else let r = write_block b.0 b.1 (dot_entries fs.block_size self parent) in
        if r.1
        then (
          r.0,
          record inode {
            block = b.1 ∷ drop 1 inode.block;
            size = fs.block_size;
            blocks = fs.block_size / 512;
          },
          true,
        )
        else (r.0, inode, false)

  -- The new inode is written and entered into its parent, which is written back.
  unfoldable pub enter_child :
      FsInstance W → ℕ → Inode → List ℕ → ℕ → Inode → Bool → FsInstance W × Bool
  unfolding write_inode insert_dir_entry
  enter_child fs parent_num parent name child_num child dir =
      let w = write_inode fs child_num child in
      let i = insert_dir_entry w.0 parent name child_num (if dir then ft_dir else ft_reg_file) in
      if not w.1
      then (w.0, false)
      else if not i.2
      then (i.0, false)
      else write_inode i.0 parent_num i.1

  -- `create` once the parent is found.
  unfoldable pub create_in : FsInstance W → ℕ → Inode → List ℕ → Bool → FsInstance W × Bool
  unfolding lookup_in_dir alloc_inode new_inode make_dots enter_child
  create_in fs parent_num parent name dir =
      if not (is_dir parent)
      then (fs, false)
      else if not (lookup_in_dir fs parent name == 0)
      then (fs, false)
      else let n = alloc_inode fs 0 in
        if n.1 == 0
        then (n.0, false)
        else if dir
        then (let d = make_dots n.0 (new_inode true) n.1 parent_num in
            if d.2
            then enter_child d.0 parent_num
                (record parent { links_count = (parent.links_count + 1) % 2 ^ 16 }) name n.1 d.1
                true
            else (d.0, false))
        else enter_child n.0 parent_num parent name n.1 (new_inode false) false

  unfoldable pub create : FsInstance W → List ℕ → Bool → FsInstance W × Bool
  unfolding split_path resolve_path_to_inode read_inode create_in
  create fs path dir = elim (split_path path) [
    | none ↦ (fs, false)
    | some place ↦
        let parent_num = resolve_path_to_inode fs place.0 in
        if parent_num == 0 then (fs, false) else elim (read_inode fs parent_num) [
          | none ↦ (fs, false)
          | some parent ↦ create_in fs parent_num parent place.1 dir
        ]
  ]

  -- The part that `unlinkFile` and `rmdirPath` have in common.
  unfoldable pub find_target : FsInstance W → List ℕ → List ℕ → Option Target
  unfolding resolve_path_to_inode read_inode lookup_in_dir
  find_target fs parent_path name =
      let parent_num = resolve_path_to_inode fs parent_path in
      if parent_num == 0 then none else elim (read_inode fs parent_num) [
        | none ↦ none
        | some parent ↦
            let target_num = lookup_in_dir fs parent name in
            if target_num == 0 then none else elim (read_inode fs target_num) [
              | none ↦ none
              | some target ↦ some (record {
                parent_inode_num = parent_num;
                parent_inode = parent;
                target_inode_num = target_num;
                target_inode = target;
              })
            ]
      ]

  -- The end of both: the parent is written back, the blocks and the inode are given back.
  unfoldable pub release : FsInstance W → ℕ → Inode → ℕ → Inode → FsInstance W × Bool
  unfolding write_inode free_all_inode_blocks free_inode
  release fs parent_num parent target_num target =
      let f = free_all_inode_blocks (write_inode fs parent_num parent).0 target in
      free_inode (write_inode f.0 target_num (record f.1 { links_count = 0 })).0 target_num

  unfoldable pub unlink_file : FsInstance W → List ℕ → FsInstance W × Bool
  unfolding split_path find_target remove_dir_entry release
  unlink_file fs path = elim (split_path path) [
    | none ↦ (fs, false)
    | some place ↦ elim (find_target fs place.0 place.1) [
      | none ↦ (fs, false)
      | some t ↦
          if is_dir t.target_inode
          then (fs, false)
          else let r = remove_dir_entry fs t.parent_inode place.1 in
            if r.1
            then release r.0 t.parent_inode_num t.parent_inode t.target_inode_num
                (record t.target_inode { dtime = 0 })
            else (r.0, false)
    ]
  ]

  unfoldable pub rmdir_path : FsInstance W → List ℕ → FsInstance W × Bool
  unfolding split_path find_target has_children remove_dir_entry release
  rmdir_path fs path = elim (split_path path) [
    | none ↦ (fs, false)
    | some place ↦ elim (find_target fs place.0 place.1) [
      | none ↦ (fs, false)
      | some t ↦
          if not (is_dir t.target_inode)
          then (fs, false)
          else if not (has_buffer fs)
          then (fs, false)
          else if has_children fs t.target_inode
          then (fs, false)
          else let r = remove_dir_entry fs t.parent_inode place.1 in
            if r.1
            then release r.0 t.parent_inode_num
                (record t.parent_inode {
                  links_count = (Inode.links_count t.parent_inode + 2 ^ 16 - 1) % 2 ^ 16;
                })
                t.target_inode_num t.target_inode
            else (r.0, false)
    ]
  ]
