-- ===== src/Ext2/Volume.antt =====
-- Mounting, paths and handles of src/fs/ext2/ext2.cpp. The messages on the terminal are left out.
use weng_shi_os.Base.{
  ℕ, zero, suc, ◌*◌, ◌/◌, ◌^◌, Bool, true, false, not, ◌==◌, ltb, List, [], ◌∷◌, ◌++◌, length,
  Option, none, some, if◌then◌else◌,
}
use weng_shi_os.Base.Int.{ℤ}
use weng_shi_os.Base.Word.{add32, sub32, mul32}
use weng_shi_os.Vfs.Types.{DirEntry}
use weng_shi_os.Ext2.Superblock.{Superblock, superblock_of}
use weng_shi_os.Ext2.Types.{Inode, Host, FsInstance, ext2_magic, root_inode, groups_of}
use weng_shi_os.Ext2.Blocks.{read_block, read_inode, has_buffer, bgdt_blocks_needed}
use weng_shi_os.Ext2.Dir.{is_dir, lookup_in_dir, find_child}

-- `PrivateData` behind a handle.
pub record PrivateData : Type 0 where
  pub inode_num : ℕ
  pub inode : Inode

pub record Handle : Type 0 where
  pub fs_private : Option PrivateData
  pub size : ℕ
  pub is_directory : Bool

-- A superblock of revision 0 has inodes of 128 bytes.
unfoldable pub adjust_revision : Superblock → Superblock
adjust_revision sb =
    if sb.rev_level == 0 then record sb { inode_size = 128; first_ino = 11 } else sb

module _ {W : Type 0} where
  -- The loop over the blocks of group descriptors, with the rounds left.
  unfoldable pub read_descriptor_blocks : ℕ → FsInstance W → ℕ → Option (List ℕ)
  unfolding read_block
  read_descriptor_blocks zero fs block = some []
  read_descriptor_blocks (suc n) fs block =
      let rest = read_descriptor_blocks n fs (add32 block 1) in
      elim (read_block fs block) [
        | none ↦ none
        | some buf ↦ elim rest [ none ↦ none | some bufs ↦ some (buf ++ bufs) ]
      ]

  -- The instance before its groups are read.
  unfoldable pub new_instance : Host W → W → Superblock → FsInstance W
  unfolding adjust_revision
  new_instance dev world sb = record {
    dev = dev;
    world = world;
    sb = adjust_revision sb;
    groups = [];
    group_count = sub32 (add32 sb.blocks_count sb.block_per_group) 1 / sb.block_per_group;
    block_size = mul32 1024 (2 ^ sb.log_block_size);
  }

  -- An instance is 1048 bytes long, and a group descriptor 32.
  unfoldable pub mount : Host W → W → Option (FsInstance W)
  unfolding superblock_of new_instance bgdt_blocks_needed read_descriptor_blocks groups_of
  mount dev world = elim (dev.read world 2 (1024 / dev.sector_size)) [
    | none ↦ none
    | some sb_buf ↦
        let fs = new_instance dev world (superblock_of sb_buf) in
        let needed = bgdt_blocks_needed fs in
        if not ((superblock_of sb_buf).magic == ext2_magic)
        then none
        else if not (dev.kmalloc world 1048)
        then none
        else if not (dev.kmalloc world (32 * fs.group_count))
        then none
        else if not (dev.kmalloc world (mul32 needed fs.block_size))
        then none
        else elim (read_descriptor_blocks needed fs (add32 fs.sb.first_data_block 1)) [
          | none ↦ none
          | some bufs ↦ some (record fs { groups = groups_of fs.group_count bufs })
        ]
  ]

  -- The end of a component: the inode that it names in the current directory, 0 where there is none.
  unfoldable pub enter : FsInstance W → ℕ → List ℕ → ℕ
  unfolding read_inode lookup_in_dir
  enter fs current component = elim (read_inode fs current) [
    | none ↦ 0
    | some dir_inode ↦ lookup_in_dir fs dir_inode component
  ]

  -- The loop over the characters, with the component so far, of which 63 are kept.
  unfoldable pub resolve_loop : FsInstance W → ℕ → List ℕ → List ℕ → ℕ
  unfolding enter
  resolve_loop fs current component [] =
      if length component == 0 then current else enter fs current component
  resolve_loop fs current component (c ∷ path) = elim (c == 47) [
    | true ↦ elim (length component == 0) [
      | true ↦ resolve_loop fs current component path
      | false ↦
          let found = enter fs current component in
          elim (found == 0) [ true ↦ 0 | false ↦ resolve_loop fs found [] path ]
    ]
    | false ↦
        resolve_loop fs current
          (if ltb (length component) 63 then component ++ (c ∷ []) else component) path
  ]

  unfoldable pub resolve_path_to_inode : FsInstance W → List ℕ → ℕ
  unfolding resolve_loop
  resolve_path_to_inode fs path = resolve_loop fs root_inode [] path

  unfoldable pub open_file : FsInstance W → List ℕ → Option Handle
  unfolding resolve_path_to_inode read_inode
  open_file fs path =
      let inode_num = resolve_path_to_inode fs path in
      if inode_num == 0
      then none
      else if not (fs.dev.kmalloc fs.world 128)
      then none
      else elim (read_inode fs inode_num) [
        | none ↦ none
        | some inode ↦
            if fs.dev.kmalloc fs.world 132
            then some (record {
              fs_private = some (record { inode_num = inode_num; inode = inode });
              size = inode.size;
              is_directory = is_dir inode;
            })
            else none
      ]

  unfoldable pub is_directory : FsInstance W → List ℕ → Bool
  unfolding resolve_path_to_inode read_inode
  is_directory fs path =
      let inode_num = resolve_path_to_inode fs path in
      if inode_num == 0
      then false
      else elim (read_inode fs inode_num) [ none ↦ false | some inode ↦ is_dir inode ]

  unfoldable pub readdir : FsInstance W → List ℕ → ℤ → Option DirEntry
  unfolding resolve_path_to_inode read_inode find_child
  readdir fs path index =
      let dir_inode_num = resolve_path_to_inode fs path in
      if dir_inode_num == 0 then none else elim (read_inode fs dir_inode_num) [
        | none ↦ none
        | some dir_inode ↦
            if not (is_dir dir_inode)
            then none
            else if has_buffer fs
            then find_child fs dir_inode index
            else none
      ]

unfoldable pub close_file : Handle → Handle
close_file handle = record handle { fs_private = none }
