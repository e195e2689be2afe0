-- ===== src/Ext2/Tests.antt =====
-- The laws of the ext2 driver on a small volume of a disk in memory.
use weng_shi_os.Base.{
  ℕ, zero, suc, ◌+◌, ◌^◌, ◌<◌, ◌≡◌, true, ◌==◌, List, [], ◌∷◌, length, some, arith, refl,
  if◌then◌else◌, inl,
}
use weng_shi_os.Ext2.Superblock.{Superblock}
use weng_shi_os.Ext2.Types.{GroupDesc, Inode, FsInstance}
use weng_shi_os.Ext2.Blocks.{
  read_block, read_inode, write_inode, sectors_per_block, inode_size, bgdt_blocks_needed, group_at,
}
use weng_shi_os.Ext2.Alloc.{blocks_in_group, alloc_block_in_group}
use weng_shi_os.Ext2.Entry.{dir_entry_min_size, next}
use weng_shi_os.Ext2.Dir.{lookup_block}
use weng_shi_os.Ext2.Ram.{bytes_at, ram, ram-IsDevice}
use weng_shi_os.Ext2.Codec.{IsInode}
use weng_shi_os.Ext2.Places.{IsVolume}
use weng_shi_os.Ext2.Names.{zero_inode}
use weng_shi_os.Ext2.Stored.{IsNumber, read_inode-write_inode}
use weng_shi_os.Ext2.Tables.{IsAway}
use weng_shi_os.Ext2.Taken.{HasFree, Outcome, alloc_block_in_group-Outcome}
use weng_shi_os.Ext2.Slots.{Slot, slot_bytes, block_bytes}
use weng_shi_os.Ext2.Found.{find_slot, lookup_block-eq-find_slot}
use weng_shi_os.Ext2.Listed.{HaveRoom, HaveRoom-AreSlots}
use weng_shi_os.Ext2.Entered.{IsNew}
use weng_shi_os.Ext2.Insertion.{InsertAnswer, lookup_block-insert_block}

abbrev small_sb : Superblock
small_sb = record {
  inodes_count = 8;
  blocks_count = 64;
  r_blocks_count = 0;
  free_blocks_count = 50;
  free_inodes_count = 6;
  first_data_block = 1;
  log_block_size = 0;
  log_frag_size = 0;
  block_per_group = 64;
  frags_per_group = 64;
  inodes_per_group = 8;
  mtime = 0;
  wtime = 0;
  mnt_count = 0;
  max_mnt_count = 0;
  magic = 0xEF53;
  state = 1;
  errors = 1;
  minor_rev_level = 0;
  lastcheck = 0;
  checkinterval = 0;
  creator_os = 0;
  rev_level = 0;
  def_resuid = 0;
  def_resgid = 0;
  first_ino = 11;
  inode_size = 128;
  block_group_nr = 0;
  feature_compact = 0;
  feature_incompact = 0;
  feature_ro_compact = 0;
  uuid = [];
  volume_name = [];
  last_mounted = [];
  algo_bitmap = 0;
  reserved = [];
}

abbrev one_group : GroupDesc
one_group = record {
  block_bitmap = 3;
  inode_bitmap = 4;
  inode_table = 5;
  free_blocks_count = 50;
  free_inodes_count = 6;
  used_dirs_count = 1;
  pad = 0;
  reserved = [];
}

-- One group on a disk that is all zero.
abbrev volume : FsInstance (ℕ → ℕ)
volume = record {
  dev = ram;
  world = λ q. 0;
  sb = small_sb;
  groups = one_group ∷ [];
  group_count = 1;
  block_size = 1024;
}

table_reaches : (g : ℕ) → g < 1 → (group_at volume g).inode_table + 1 < 2 ^ 32
table_reaches zero h = omega arith
table_reaches (suc g) h = absurd (omega (arith, h))

volume-IsVolume : IsVolume volume
unfolding sectors_per_block inode_size
volume-IsVolume = record {
  device = ram-IsDevice;
  whole = refl;
  inode_room = omega arith;
  inodes_per_block = 8;
  some_inodes = omega arith;
  packed = refl;
  per_group = omega arith;
  table_small = omega arith;
  table_blocks = 1;
  table_fits = omega arith;
  tables_reach = λ g h. table_reaches g h;
  tables_apart = λ g h lg lh ne. absurd (ne (omega arith));
}

abbrev file_inode : Inode
file_inode = record zero_inode { mode = 0x81A4; size = 700; links_count = 1; blocks = 2 }

file_inode-IsInode : IsInode file_inode
file_inode-IsInode = record {
  mode = omega arith;
  uid = omega arith;
  size = omega arith;
  atime = omega arith;
  ctime = omega arith;
  mtime = omega arith;
  dtime = omega arith;
  gid = omega arith;
  links_count = omega arith;
  blocks = omega arith;
  flags = omega arith;
  osd1 = omega arith;
  block_len = refl;
  block = (
    omega arith,
    (
      omega arith,
      (
        omega arith,
        (
          omega arith,
          (
            omega arith,
            (
              omega arith,
              (
                omega arith,
                (
                  omega arith,
                  (
                    omega arith,
                    (
                      omega arith,
                      (omega arith, (omega arith, (omega arith, (omega arith, (omega arith, tt))))),
                    ),
                  ),
                ),
              ),
            ),
          ),
        ),
      ),
    ),
  );
  generation = omega arith;
  file_acl = omega arith;
  dir_acl = omega arith;
  faddr = omega arith;
  osd2_len = refl;
}

number : (n : ℕ) → 0 < n → n < 9 → IsNumber volume n
number n lo hi = record { positive = lo; word = omega arith; in_group = omega arith }

third_written : (write_inode volume 3 file_inode).1 ≡ true
unfolding write_inode
third_written = refl

read_inode-write_inode_example :
    read_inode (write_inode volume 3 file_inode).0 5
    ≡ (if 3 == 5 then some file_inode else read_inode volume 5)
read_inode-write_inode_example =
    read_inode-write_inode volume 3 5 file_inode volume-IsVolume file_inode-IsInode
      (number 3 (omega arith) (omega arith)) (number 5 (omega arith) (omega arith)) third_written

-- The superblock and the descriptors are in blocks 1 and 2, the bitmap of blocks is in block 3.
bitmap-IsAway : IsAway volume 3
unfolding sectors_per_block bgdt_blocks_needed
bitmap-IsAway = record {
  superblock = inl (omega arith);
  descriptors = λ k h e. omega (arith, h, e);
}

volume-HasFree : HasFree volume 0
unfolding sectors_per_block blocks_in_group
volume-HasFree = record {
  device = ram-IsDevice;
  whole = refl;
  in_range = omega arith;
  listed = omega arith;
  some_free = omega arith;
  free_word = omega arith;
  counted = omega arith;
  all_word = omega arith;
  bits = omega arith;
  away = bitmap-IsAway;
  room = refl;
}

-- The bytes of the bitmap on the empty disk.
abbrev empty_bitmap : List ℕ
empty_bitmap = bytes_at (λ q. 0) 3072 1024

bitmap_read : read_block volume 3 ≡ some empty_bitmap
unfolding read_block
bitmap_read = refl

alloc_block_in_group-Outcome_example : Outcome volume 0 empty_bitmap (alloc_block_in_group volume 0)
alloc_block_in_group-Outcome_example =
    alloc_block_in_group-Outcome volume 0 volume-HasFree empty_bitmap bitmap_read

-- A block of `.`, and `..` in the rest of 64 bytes.
abbrev dots : List Slot
dots =
    record { inode = 2; kind = 2; name = 46 ∷ []; spare = 0 ∷ 0 ∷ 0 ∷ [] }
    ∷ record {
      inode = 2;
      kind = 2;
      name = 46 ∷ 46 ∷ [];
      spare =
          0 ∷ 0 ∷ 0 ∷ 0 ∷ 0 ∷ 0 ∷ 0 ∷ 0 ∷ 0 ∷ 0 ∷ 0 ∷ 0 ∷ 0 ∷ 0 ∷ 0 ∷ 0 ∷ 0 ∷ 0 ∷ 0 ∷ 0 ∷ 0 ∷ [];
    }
    ∷ []

dots-HaveRoom : HaveRoom dots
unfolding dir_entry_min_size
dots-HaveRoom = (
  record {
    valid = record {
      inode = omega arith;
      kind = omega arith;
      name = omega arith;
      len = omega arith;
    };
    room = omega arith;
  },
  (
    record {
      valid = record {
        inode = omega arith;
        kind = omega arith;
        name = omega arith;
        len = omega arith;
      };
      room = omega arith;
    },
    tt,
  ),
)

dots-small : length (block_bytes dots) < 2 ^ 32
unfolding block_bytes slot_bytes
dots-small = omega arith

abbrev file_name : List ℕ
file_name = 97 ∷ 98 ∷ 99 ∷ []

file_name-IsNew : IsNew 12 1 file_name
file_name-IsNew = record {
  used = omega arith;
  word = omega arith;
  kind_byte = omega arith;
  short = omega arith;
}

lookup_block-insert_block_example : InsertAnswer 12 1 file_name file_name-IsNew dots
lookup_block-insert_block_example =
    lookup_block-insert_block 12 1 file_name file_name-IsNew dots dots-HaveRoom dots-small

lookup_block-eq-find_slot_example :
    lookup_block (length (block_bytes dots)) (46 ∷ 46 ∷ []) (block_bytes dots)
    ≡ find_slot (46 ∷ 46 ∷ []) dots
lookup_block-eq-find_slot_example =
    lookup_block-eq-find_slot (46 ∷ 46 ∷ []) dots (HaveRoom-AreSlots dots dots-HaveRoom) dots-small

-- The new file is found in its block.
inserted : lookup_block 36 file_name (block_bytes dots) ≡ next tt
unfolding lookup_block block_bytes slot_bytes
inserted = refl
