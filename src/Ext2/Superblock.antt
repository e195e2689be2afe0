-- ===== src/Ext2/Superblock.antt =====
-- The superblock of src/fs/ext2/ext2.cpp and its bytes.
use weng_shi_os.Base.{ℕ, List, ◌++◌, take, drop}
use weng_shi_os.Ext2.Bytes.{le, field}

pub record Superblock : Type 0 where
  pub inodes_count : ℕ
  pub blocks_count : ℕ
  pub r_blocks_count : ℕ
  pub free_blocks_count : ℕ
  pub free_inodes_count : ℕ
  pub first_data_block : ℕ
  pub log_block_size : ℕ
  pub log_frag_size : ℕ
  pub block_per_group : ℕ
  pub frags_per_group : ℕ
  pub inodes_per_group : ℕ
  pub mtime : ℕ
  pub wtime : ℕ
  pub mnt_count : ℕ
  pub max_mnt_count : ℕ
  pub magic : ℕ
  pub state : ℕ
  pub errors : ℕ
  pub minor_rev_level : ℕ
  pub lastcheck : ℕ
  pub checkinterval : ℕ
  pub creator_os : ℕ
  pub rev_level : ℕ
  pub def_resuid : ℕ
  pub def_resgid : ℕ
  pub first_ino : ℕ
  pub inode_size : ℕ
  pub block_group_nr : ℕ
  pub feature_compact : ℕ
  pub feature_incompact : ℕ
  pub feature_ro_compact : ℕ
  pub uuid : List ℕ
  pub volume_name : List ℕ
  pub last_mounted : List ℕ
  pub algo_bitmap : ℕ
  pub reserved : List ℕ

unfoldable pub superblock_of : List ℕ → Superblock
superblock_of b = record {
  inodes_count = field 0 4 b;
  blocks_count = field 4 4 b;
  r_blocks_count = field 8 4 b;
  free_blocks_count = field 12 4 b;
  free_inodes_count = field 16 4 b;
  first_data_block = field 20 4 b;
  log_block_size = field 24 4 b;
  log_frag_size = field 28 4 b;
  block_per_group = field 32 4 b;
  frags_per_group = field 36 4 b;
  inodes_per_group = field 40 4 b;
  mtime = field 44 4 b;
  wtime = field 48 4 b;
  mnt_count = field 52 2 b;
  max_mnt_count = field 54 2 b;
  magic = field 56 2 b;
  state = field 58 2 b;
  errors = field 60 2 b;
  minor_rev_level = field 62 2 b;
  lastcheck = field 64 4 b;
  checkinterval = field 68 4 b;
  creator_os = field 72 4 b;
  rev_level = field 76 4 b;
  def_resuid = field 80 2 b;
  def_resgid = field 82 2 b;
  first_ino = field 84 4 b;
  inode_size = field 88 2 b;
  block_group_nr = field 90 2 b;
  feature_compact = field 92 4 b;
  feature_incompact = field 96 4 b;
  feature_ro_compact = field 100 4 b;
  uuid = take 16 (drop 104 b);
  volume_name = take 16 (drop 120 b);
  last_mounted = take 64 (drop 136 b);
  algo_bitmap = field 200 4 b;
  reserved = drop 204 b;
}

unfoldable pub superblock_bytes : Superblock → List ℕ
superblock_bytes sb =
    le 4 sb.inodes_count
    ++ le 4 sb.blocks_count
    ++ le 4 sb.r_blocks_count
    ++ le 4 sb.free_blocks_count
    ++ le 4 sb.free_inodes_count
    ++ le 4 sb.first_data_block
    ++ le 4 sb.log_block_size
    ++ le 4 sb.log_frag_size
    ++ le 4 sb.block_per_group
    ++ le 4 sb.frags_per_group
    ++ le 4 sb.inodes_per_group
    ++ le 4 sb.mtime
    ++ le 4 sb.wtime
    ++ le 2 sb.mnt_count
    ++ le 2 sb.max_mnt_count
    ++ le 2 sb.magic
    ++ le 2 sb.state
    ++ le 2 sb.errors
    ++ le 2 sb.minor_rev_level
    ++ le 4 sb.lastcheck
    ++ le 4 sb.checkinterval
    ++ le 4 sb.creator_os
    ++ le 4 sb.rev_level
    ++ le 2 sb.def_resuid
    ++ le 2 sb.def_resgid
    ++ le 4 sb.first_ino
    ++ le 2 sb.inode_size
    ++ le 2 sb.block_group_nr
    ++ le 4 sb.feature_compact
    ++ le 4 sb.feature_incompact
    ++ le 4 sb.feature_ro_compact
    ++ sb.uuid
    ++ sb.volume_name
    ++ sb.last_mounted
    ++ le 4 sb.algo_bitmap
    ++ sb.reserved
