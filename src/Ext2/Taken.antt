-- ===== src/Ext2/Taken.antt =====
-- `allocBlockInGroup` of src/fs/ext2/ext2.cpp against the set of blocks in use.
use weng_shi_os.Base.{
  ℕ, ◌+◌, ◌-◌, ◌*◌, ◌%◌, ◌^◌, ◌≤◌, ◌<◌, ◌≡◌, true, false, ◌==◌, List, length, get_or-set_self, none,
  some, if◌then◌else◌, arith, refl, sym, ap, subst, ◌∙◌, Bool-cases, inl, inr,
}
use weng_shi_os.Base.Word.{add32, mul32}
use weng_shi_os.Pmm.{set_bit, test_bit}
use weng_shi_os.Pmm.Bitmap.{test_bit-set_bit, length-set_bit}
use weng_shi_os.Ext2.Types.{GroupDesc, FsInstance, no_group}
use weng_shi_os.Ext2.Blocks.{
  sectors_per_block, bgdt_blocks_needed, read_block, write_block, has_buffer, group_at,
  write_tables,
}
use weng_shi_os.Ext2.Alloc.{find_free, blocks_in_group, count_block, alloc_block_in_group}
use weng_shi_os.Ext2.Device.{IsDevice, length-read_block, read_block-write_block_self}
use weng_shi_os.Ext2.Search.{Search, all_used, first_free, find_free-Search}
use weng_shi_os.Ext2.Tables.{Spares, IsAway, write_tables-Spares}

-- What `allocBlockInGroup` may answer where the group has blocks: all are in use and nothing
-- changes; the first free one is marked, no other mark changes, both counts go down, and its number
-- is the answer; or the mark cannot be written and the answer is 0.
pub data Outcome {W : Type 0} (fs : FsInstance W) (group : ℕ) (bitmap : List ℕ)
    (r : FsInstance W × ℕ) : Type 0 where
  full :
      ((k : ℕ) → k < blocks_in_group fs group → test_bit bitmap k ≡ true)
      → r ≡ (fs, 0)
      → Outcome fs group bitmap r
  taken :
      (f : ℕ) (marked : List ℕ)
      → f < blocks_in_group fs group
      → test_bit bitmap f ≡ false
      → ((k : ℕ) → k < f → test_bit bitmap k ≡ true)
      → read_block r.0 (group_at fs group).block_bitmap ≡ some marked
      → ((k : ℕ) → test_bit marked k ≡ (if f == k then true else test_bit bitmap k))
      → (group_at r.0 group).free_blocks_count + 1 ≡ (group_at fs group).free_blocks_count
      → r.0.sb.free_blocks_count + 1 ≡ fs.sb.free_blocks_count
      → r.1 ≡ add32 (add32 fs.sb.first_data_block (mul32 group fs.sb.block_per_group)) f
      → Outcome fs group bitmap r
  failed :
      (f : ℕ)
      → (write_block fs (group_at fs group).block_bitmap (set_bit bitmap f)).1 ≡ false
      → r ≡ ((write_block fs (group_at fs group).block_bitmap (set_bit bitmap f)).0, 0)
      → Outcome fs group bitmap r

-- A group with free blocks, by the counts, and a bitmap that has a bit for each of its blocks.
pub record HasFree {W : Type 0} (fs : FsInstance W) (group : ℕ) : Type 0 where
  pub device : IsDevice fs.dev
  pub whole : sectors_per_block fs * fs.dev.sector_size ≡ fs.block_size
  pub in_range : group < fs.group_count
  pub listed : group < length fs.groups
  pub some_free : 0 < (group_at fs group).free_blocks_count
  pub free_word : (group_at fs group).free_blocks_count < 2 ^ 16
  pub counted : (group_at fs group).free_blocks_count ≤ fs.sb.free_blocks_count
  pub all_word : fs.sb.free_blocks_count < 2 ^ 32
  pub bits : blocks_in_group fs group ≤ 8 * fs.block_size
  pub away : IsAway fs (group_at fs group).block_bitmap
  pub room : has_buffer fs ≡ true

module _ {W : Type 0} (fs : FsInstance W) (group : ℕ) (v : HasFree fs group) (bitmap : List ℕ)
    (e : read_block fs (group_at fs group).block_bitmap ≡ some bitmap) where
  no_bit :
      find_free (blocks_in_group fs group) 0 bitmap ≡ none → alloc_block_in_group fs group ≡ (fs, 0)
  unfolding alloc_block_in_group
  no_bit none_free = ground (arith, e, none_free, v.room)

  mark_lost :
      (f : ℕ)
      → find_free (blocks_in_group fs group) 0 bitmap ≡ some f
      → (write_block fs (group_at fs group).block_bitmap (set_bit bitmap f)).1 ≡ false
      → alloc_block_in_group fs group
        ≡ ((write_block fs (group_at fs group).block_bitmap (set_bit bitmap f)).0, 0)
  unfolding alloc_block_in_group
  mark_lost f found lost = ground (arith, e, found, lost, v.room, v.in_range, v.some_free)

  abbrev marked_state : ℕ → FsInstance W
  marked_state f = (write_block fs (group_at fs group).block_bitmap (set_bit bitmap f)).0

  mark_kept :
      (f : ℕ)
      → find_free (blocks_in_group fs group) 0 bitmap ≡ some f
      → (write_block fs (group_at fs group).block_bitmap (set_bit bitmap f)).1 ≡ true
      → alloc_block_in_group fs group ≡ (
        write_tables (count_block (marked_state f) group (2 ^ 16 - 1) (2 ^ 32 - 1)),
        add32 (add32 fs.sb.first_data_block (mul32 group fs.sb.block_per_group)) f,
      )
  unfolding alloc_block_in_group
  mark_kept f found kept = ground (arith, e, found, kept, v.room, v.in_range, v.some_free)

  -- The state before the tables are written.
  abbrev counted_state : ℕ → FsInstance W
  counted_state f = count_block (marked_state f) group (2 ^ 16 - 1) (2 ^ 32 - 1)

  tables_written :
      (f : ℕ)
      → Spares (group_at fs group).block_bitmap (counted_state f) (write_tables (counted_state f))
  unfolding write_block sectors_per_block bgdt_blocks_needed
  tables_written f =
      write_tables-Spares (counted_state f) (group_at fs group).block_bitmap v.device
        (record { superblock = v.away.superblock; descriptors = v.away.descriptors })

  -- What the tables say after one block is taken.
  group_counted :
      (f : ℕ)
      → (group_at (write_tables (counted_state f)) group).free_blocks_count + 1
        ≡ (group_at fs group).free_blocks_count
  unfolding write_block
  group_counted f = omega (
    arith,
    v.some_free,
    v.free_word,
    ap (λ (x : FsInstance W). (group_at x group).free_blocks_count) (tables_written f).rest,
    ap GroupDesc.free_blocks_count (
        get_or-set_self fs.groups group
          (record (group_at fs group) {
            free_blocks_count = ((group_at fs group).free_blocks_count + (2 ^ 16 - 1)) % 2 ^ 16;
          })
          no_group v.listed),
  )

  all_counted :
      (f : ℕ) → (write_tables (counted_state f)).sb.free_blocks_count + 1 ≡ fs.sb.free_blocks_count
  unfolding write_block
  all_counted f = omega (
    arith,
    v.some_free,
    v.counted,
    v.all_word,
    ap (λ (x : FsInstance W). x.sb.free_blocks_count) (tables_written f).rest,
  )

  mark_read :
      (f : ℕ)
      → (write_block fs (group_at fs group).block_bitmap (set_bit bitmap f)).1 ≡ true
      → read_block (write_tables (counted_state f)) (group_at fs group).block_bitmap
        ≡ some (set_bit bitmap f)
  unfolding read_block sectors_per_block
  mark_read f kept =
      (tables_written f).block
      ∙ read_block-write_block_self fs v.device (group_at fs group).block_bitmap (set_bit bitmap f)
          (length-set_bit bitmap f ∙ length-read_block fs v.device _ bitmap e) kept

  outcome_of :
      Search bitmap 0 (blocks_in_group fs group) (find_free (blocks_in_group fs group) 0 bitmap)
      → Outcome fs group bitmap (alloc_block_in_group fs group)
  outcome_of (all_used all none_free) =
      full (λ k h. all k (omega arith) (omega arith)) (no_bit none_free)
  outcome_of (first_free f lo hi free before found) =
      elim (Bool-cases (write_block fs (group_at fs group).block_bitmap (set_bit bitmap f)).1) [
        | inr lost ↦ failed f lost (mark_lost f found lost)
        | inl kept ↦ subst (Outcome fs group bitmap) (sym (mark_kept f found kept)) (
            taken f (set_bit bitmap f) (omega arith) free (λ k h. before k (omega arith) h)
              (mark_read f kept)
              (λ k.
                test_bit-set_bit bitmap f k
                  (omega (arith, hi, v.bits, v.whole, length-read_block fs v.device _ bitmap e)))
              (group_counted f) (all_counted f) refl)
      ]

  -- On a device that keeps what is written, with a block of whole sectors: for a group of the file
  -- system that has free blocks by its count, where the group's count is not above that of the
  -- superblock and both fit their fields, a block holds the group's bits, the bitmap stands apart
  -- from the group table and the superblock, `kmalloc` gives a buffer and the bitmap can be read,
  -- the call answers 0 and changes nothing if the bitmap has no free bit; else it marks the first
  -- free block, changes no other mark, lowers both counts by one and answers the block's number, or
  -- answers 0 if the bitmap cannot be written.
  pub alloc_block_in_group-Outcome : Outcome fs group bitmap (alloc_block_in_group fs group)
  alloc_block_in_group-Outcome = outcome_of (find_free-Search (blocks_in_group fs group) 0 bitmap)
