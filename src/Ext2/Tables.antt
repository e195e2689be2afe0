-- ===== src/Ext2/Tables.antt =====
-- Writing back the superblock and the group descriptors, of src/fs/ext2/ext2.cpp, leaves the other
-- blocks as they were.
use weng_shi_os.Base.{
  ℕ, zero, suc, ◌+◌, ◌*◌, ◌/◌, ◌%◌, ◌^◌, ◌<◌, ◌≡◌, ◌≢◌, Bool, true, false, List, take, drop, arith,
  refl, sym, ap, subst, ◌∙◌, if_cases,
}
use weng_shi_os.Base.Word.{add32, mul32}
use weng_shi_os.Base.Mem.{Apart}
use weng_shi_os.Ext2.Types.{FsInstance}
use weng_shi_os.Ext2.Blocks.{
  sectors_per_block, read_block, write_block, write_superblock, write_descriptor_blocks,
  bgdt_blocks_needed, write_group_descriptors, write_tables,
}
use weng_shi_os.Ext2.Device.{IsDevice, read_block-write_block_ne}

-- What a write to the device leaves of an instance: all but the state of the device, and in that one
-- block.
pub record Spares {W : Type 0} (b : ℕ) (fs gs : FsInstance W) : Type 0 where
  pub world : W
  pub rest : gs ≡ record fs { world = world }
  pub block : read_block gs b ≡ read_block fs b

-- The superblock's sectors and the blocks of descriptors are not this block.
pub record IsAway {W : Type 0} (fs : FsInstance W) (b : ℕ) : Type 0 where
  pub superblock :
      Apart 2 (1024 / fs.dev.sector_size) (b * sectors_per_block fs) (sectors_per_block fs)
  pub descriptors :
      (k : ℕ) → k < bgdt_blocks_needed fs → (add32 fs.sb.first_data_block 1 + k) % 2 ^ 32 ≢ b

module _ {W : Type 0} where
  two_writes : (b : ℕ) (fs gs hs : FsInstance W) → Spares b fs gs → Spares b gs hs → Spares b fs hs
  two_writes b fs gs hs s t = record {
    world = t.world;
    rest = t.rest ∙ ap (λ (x : FsInstance W). record x { world = t.world }) s.rest;
    block = t.block ∙ s.block;
  }

  write_block-Spares :
      (fs : FsInstance W) (a b : ℕ) (buf : List ℕ)
      → IsDevice fs.dev
      → a ≢ b
      → Spares b fs (write_block fs a buf).0
  unfolding write_block
  write_block-Spares fs a b buf d ne = record {
    world = _;
    rest = refl;
    block = read_block-write_block_ne fs d a b buf ne;
  }

  -- Whichever branch a test takes.
  whichever_branch :
      (c : Bool) (b : ℕ) (fs : FsInstance W) (x y : FsInstance W × Bool)
      → Spares b fs x.0
      → Spares b fs y.0
      → Spares b fs (elim c as (λ _. FsInstance W × Bool) [ true ↦ x | false ↦ y ]).0
  whichever_branch true b fs x y s t = s
  whichever_branch false b fs x y s t = t

  write_descriptor_blocks-Spares :
      (n : ℕ) (fs : FsInstance W) (block : ℕ) (buf : List ℕ) (b : ℕ)
      → IsDevice fs.dev
      → block < 2 ^ 32
      → ((k : ℕ) → k < n → (block + k) % 2 ^ 32 ≢ b)
      → Spares b fs (write_descriptor_blocks n fs block buf).0
  unfolding write_descriptor_blocks write_block
  write_descriptor_blocks-Spares zero fs block buf b d small away = record {
    world = fs.world;
    rest = refl;
    block = refl;
  }
  write_descriptor_blocks-Spares (suc n) fs block buf b d small away =
      let r = write_block fs block (take fs.block_size buf) in
      let here : block ≢ b = λ e. away 0 (omega arith) (omega (arith, e, small)) in
      let first = write_block-Spares fs block b (take fs.block_size buf) d here in
      let more =
        write_descriptor_blocks-Spares n r.0 (add32 block 1) (drop fs.block_size buf) b d
          (omega arith) (λ k h e. away (k + 1) (omega (arith, h)) (omega (arith, e))) in
      whichever_branch r.1 b fs
        (write_descriptor_blocks n r.0 (add32 block 1) (drop fs.block_size buf)) (r.0, false)
        (two_writes b fs r.0 _ first more) first

  write_superblock-Spares :
      (fs : FsInstance W) (b : ℕ)
      → IsDevice fs.dev
      → Apart 2 (1024 / fs.dev.sector_size) (b * sectors_per_block fs) (sectors_per_block fs)
      → Spares b fs (write_superblock fs).0
  unfolding write_superblock read_block sectors_per_block
  write_superblock-Spares fs b d apart = record {
    world = _;
    rest = refl;
    block = d.spares _ _ _ _ _ _ apart;
  }

  write_group_descriptors-Spares :
      (fs : FsInstance W) (b : ℕ)
      → IsDevice fs.dev
      → IsAway fs b
      → Spares b fs (write_group_descriptors fs).0
  unfolding write_group_descriptors
  write_group_descriptors-Spares fs b d away =
      if_cases (λ (r : FsInstance W × Bool). Spares b fs r.0)
        (fs.dev.kmalloc fs.world (mul32 (bgdt_blocks_needed fs) fs.block_size))
        (λ e.
          write_descriptor_blocks-Spares (bgdt_blocks_needed fs) fs (add32 fs.sb.first_data_block 1)
            _ b d (omega arith) away.descriptors)
        (λ e. record { world = fs.world; rest = refl; block = refl })

  pub write_tables-Spares :
      (fs : FsInstance W) (b : ℕ) → IsDevice fs.dev → IsAway fs b → Spares b fs (write_tables fs)
  unfolding write_tables sectors_per_block
  write_tables-Spares fs b d away =
      let s = write_group_descriptors-Spares fs b d away in
      two_writes b fs (write_group_descriptors fs).0 _ s (
        subst (λ (x : FsInstance W). Spares b x (write_superblock x).0) (sym s.rest)
          (write_superblock-Spares (record fs { world = s.world }) b d away.superblock))
