-- ===== src/Ext2/Types.antt =====
-- The structs of src/fs/ext2/ext2.cpp and their bytes.
use weng_shi_os.Base.{ℕ, zero, suc, Bool, Option, List, [], ◌∷◌, ◌++◌, take, drop}
use weng_shi_os.Ext2.Bytes.{le, field}
use weng_shi_os.Ext2.Superblock.{Superblock}

abbrev pub ext2_magic : ℕ
ext2_magic = 0xEF53

abbrev pub root_inode : ℕ
root_inode = 2

abbrev pub s_ifdir : ℕ
s_ifdir = 0x4000

abbrev pub s_ifreg : ℕ
s_ifreg = 0x8000

abbrev pub s_ifmt : ℕ
s_ifmt = 0xF000

pub record GroupDesc : Type 0 where
  pub block_bitmap : ℕ
  pub inode_bitmap : ℕ
  pub inode_table : ℕ
  pub free_blocks_count : ℕ
  pub free_inodes_count : ℕ
  pub used_dirs_count : ℕ
  pub pad : ℕ
  pub reserved : List ℕ

abbrev pub no_group : GroupDesc
no_group = record {
  block_bitmap = 0;
  inode_bitmap = 0;
  inode_table = 0;
  free_blocks_count = 0;
  free_inodes_count = 0;
  used_dirs_count = 0;
  pad = 0;
  reserved = [];
}

unfoldable pub group_of : List ℕ → GroupDesc
group_of b = record {
  block_bitmap = field 0 4 b;
  inode_bitmap = field 4 4 b;
  inode_table = field 8 4 b;
  free_blocks_count = field 12 2 b;
  free_inodes_count = field 14 2 b;
  used_dirs_count = field 16 2 b;
  pad = field 18 2 b;
  reserved = take 12 (drop 20 b);
}

unfoldable pub group_bytes : GroupDesc → List ℕ
group_bytes g =
    le 4 g.block_bitmap
    ++ le 4 g.inode_bitmap
    ++ le 4 g.inode_table
    ++ le 2 g.free_blocks_count
    ++ le 2 g.free_inodes_count
    ++ le 2 g.used_dirs_count
    ++ le 2 g.pad
    ++ g.reserved

-- The array `groups` in memory.
unfoldable pub groups_of : ℕ → List ℕ → List GroupDesc
groups_of zero b = []
groups_of (suc n) b = group_of (take 32 b) ∷ groups_of n (drop 32 b)

unfoldable pub groups_bytes : List GroupDesc → List ℕ
groups_bytes [] = []
groups_bytes (g ∷ groups) = group_bytes g ++ groups_bytes groups

pub record Inode : Type 0 where
  pub mode : ℕ
  pub uid : ℕ
  pub size : ℕ
  pub atime : ℕ
  pub ctime : ℕ
  pub mtime : ℕ
  pub dtime : ℕ
  pub gid : ℕ
  pub links_count : ℕ
  pub blocks : ℕ
  pub flags : ℕ
  pub osd1 : ℕ
  pub block : List ℕ
  pub generation : ℕ
  pub file_acl : ℕ
  pub dir_acl : ℕ
  pub faddr : ℕ
  pub osd2 : List ℕ

-- An array of `uint32_t` and its bytes.
unfoldable pub words_of : ℕ → List ℕ → List ℕ
words_of zero b = []
words_of (suc n) b = field 0 4 b ∷ words_of n (drop 4 b)

unfoldable pub words_bytes : List ℕ → List ℕ
words_bytes [] = []
words_bytes (v ∷ words) = le 4 v ++ words_bytes words

unfoldable pub inode_of : List ℕ → Inode
inode_of b = record {
  mode = field 0 2 b;
  uid = field 2 2 b;
  size = field 4 4 b;
  atime = field 8 4 b;
  ctime = field 12 4 b;
  mtime = field 16 4 b;
  dtime = field 20 4 b;
  gid = field 24 2 b;
  links_count = field 26 2 b;
  blocks = field 28 4 b;
  flags = field 32 4 b;
  osd1 = field 36 4 b;
  block = words_of 15 (drop 40 b);
  generation = field 100 4 b;
  file_acl = field 104 4 b;
  dir_acl = field 108 4 b;
  faddr = field 112 4 b;
  osd2 = take 12 (drop 116 b);
}

-- The bytes behind the array `block`, and all of them.
unfoldable pub inode_tail : Inode → List ℕ
inode_tail i = le 4 i.generation ++ le 4 i.file_acl ++ le 4 i.dir_acl ++ le 4 i.faddr ++ i.osd2

unfoldable pub inode_bytes : Inode → List ℕ
unfolding inode_tail
inode_bytes i =
    le 2 i.mode
    ++ le 2 i.uid
    ++ le 4 i.size
    ++ le 4 i.atime
    ++ le 4 i.ctime
    ++ le 4 i.mtime
    ++ le 4 i.dtime
    ++ le 2 i.gid
    ++ le 2 i.links_count
    ++ le 4 i.blocks
    ++ le 4 i.flags
    ++ le 4 i.osd1
    ++ (words_bytes i.block ++ inode_tail i)

-- What the driver calls: the device's sectors and kmalloc. `W` is the state behind them; a read
-- leaves it as it is and answers the bytes, and kmalloc answers whether there is room.
pub record Host (W : Type 0) : Type 0 where
  pub sector_size : ℕ
  pub read : W → ℕ → ℕ → Option (List ℕ)
  pub write : W → ℕ → ℕ → List ℕ → W × Bool
  pub kmalloc : W → ℕ → Bool

-- `FsInstance`, with the state of what it calls.
pub record FsInstance (W : Type 0) : Type 0 where
  pub dev : Host W
  pub world : W
  pub sb : Superblock
  pub groups : List GroupDesc
  pub group_count : ℕ
  pub block_size : ℕ
