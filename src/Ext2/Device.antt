-- ===== src/Ext2/Device.antt =====
-- What src/fs/ext2/ext2.cpp relies on in a block device, and blocks that are read after a write.
use weng_shi_os.Base.{ℕ, ◌*◌, ◌≡◌, ◌≢◌, inl, inr, true, List, length, some, arith, dec_lt}
use weng_shi_os.Base.Mem.{Apart}
use weng_shi_os.Ext2.Types.{Host, FsInstance}
use weng_shi_os.Ext2.Blocks.{sectors_per_block, read_block, write_block}

-- A device keeps the sectors that a write without an error put on it, a write leaves the other
-- sectors alone, a read fills the buffer, and a transfer leaves the heap as it was.
pub record IsDevice {W : Type 0} (h : Host W) : Type 0 where
  pub fills :
      (w : W) (lba n : ℕ) (b : List ℕ) → h.read w lba n ≡ some b → length b ≡ n * h.sector_size
  pub keeps :
      (w : W) (lba n : ℕ) (b : List ℕ)
      → length b ≡ n * h.sector_size
      → (h.write w lba n b).1 ≡ true
      → h.read (h.write w lba n b).0 lba n ≡ some b
  pub spares :
      (w : W) (lba n : ℕ) (b : List ℕ) (lba' n' : ℕ)
      → Apart lba n lba' n'
      → h.read (h.write w lba n b).0 lba' n' ≡ h.read w lba' n'
  pub heap :
      (w : W) (lba n : ℕ) (b : List ℕ) (size : ℕ)
      → h.kmalloc (h.write w lba n b).0 size ≡ h.kmalloc w size

-- Two places of an array of `s` bytes each.
pub disjoint_slots : (a b s : ℕ) → a ≢ b → Apart (a * s) s (b * s) s
disjoint_slots a b s ne = elim (dec_lt a b) [
  | yes lt ↦ inl (grind arith)
  | no ge ↦ inr (grind arith)
]

module _ {W : Type 0} (fs : FsInstance W) (d : IsDevice fs.dev) where
  pub length-read_block :
      (block_num : ℕ) (buf : List ℕ)
      → read_block fs block_num ≡ some buf
      → length buf ≡ sectors_per_block fs * fs.dev.sector_size
  unfolding read_block
  length-read_block block_num buf e = d.fills _ _ _ buf e

  pub read_block-write_block_self :
      (block_num : ℕ) (buf : List ℕ)
      → length buf ≡ sectors_per_block fs * fs.dev.sector_size
      → (write_block fs block_num buf).1 ≡ true
      → read_block (write_block fs block_num buf).0 block_num ≡ some buf
  unfolding read_block write_block sectors_per_block
  read_block-write_block_self block_num buf l ok = d.keeps _ _ _ buf l ok

  pub read_block-write_block_ne :
      (a b : ℕ) (buf : List ℕ) → a ≢ b → read_block (write_block fs a buf).0 b ≡ read_block fs b
  unfolding read_block write_block sectors_per_block
  read_block-write_block_ne a b buf ne = d.spares _ _ _ buf _ _ (disjoint_slots a b _ ne)
