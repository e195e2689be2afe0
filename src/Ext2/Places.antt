-- ===== src/Ext2/Places.antt =====
-- Where the inodes of a volume of src/fs/ext2/ext2.cpp stand.
use native.Mathlib.Nat.{
  mod-lt, mod-eq_of_lt, mul-le-mul_right, mul-lt-mul_of_pos_right, mul-div-mul_right, div-add-mod,
  mul-add-mod_self_right, div-lt_iff_lt-mul,
}
use weng_shi_os.Base.{
  ℕ, ◌+◌, ◌*◌, ◌/◌, ◌%◌, ◌^◌, ◌≤◌, ◌<◌, ◌≡◌, ◌≢◌, inl, inr, ℕ_discrete, arith, sym, ap, ap₂, ◌∙◌,
}
use weng_shi_os.Base.Word.{add32, sub32}
use weng_shi_os.Base.Mem.{Apart}
use weng_shi_os.Ext2.Types.{FsInstance}
use weng_shi_os.Ext2.Blocks.{
  sectors_per_block, group_at, group_of_inode, inode_size, inode_offset, byte_offset_in_table,
  inode_block_num,
}
use weng_shi_os.Ext2.Device.{IsDevice, disjoint_slots}

regroup : (b q r c : ℕ) → (b * q + r) * c ≡ q * (b * c) + r * c
regroup b q r c = grind arith

mod_scaled : (a b c : ℕ) → 0 < b → 0 < c → (a * c) % (b * c) ≡ a % b * c
mod_scaled a b c hb hc =
    let split : a * c ≡ a / b * (b * c) + a % b * c =
      ap (λ (n : ℕ). n * c) (sym (div-add-mod a b)) ∙ regroup b (a / b) (a % b) c in
    ap (λ (n : ℕ). n % (b * c)) split
    ∙ mul-add-mod_self_right (a / b) (b * c) (a % b * c)
    ∙ mod-eq_of_lt (mul-lt-mul_of_pos_right (mod-lt a hb) hc)

-- A volume that the format allows: whole sectors in a block, whole inodes in a block, and tables
-- that 32 bits reach.
pub record IsVolume {W : Type 0} (fs : FsInstance W) : Type 0 where
  pub device : IsDevice fs.dev
  pub whole : sectors_per_block fs * fs.dev.sector_size ≡ fs.block_size
  pub inode_room : 128 ≤ inode_size fs
  pub inodes_per_block : ℕ
  pub some_inodes : 0 < inodes_per_block
  pub packed : inodes_per_block * inode_size fs ≡ fs.block_size
  pub per_group : 0 < fs.sb.inodes_per_group
  pub table_small : fs.sb.inodes_per_group * inode_size fs < 2 ^ 32
  pub table_blocks : ℕ
  pub table_fits : fs.sb.inodes_per_group ≤ table_blocks * inodes_per_block
  pub tables_reach :
      (g : ℕ) → g < fs.group_count → (group_at fs g).inode_table + table_blocks < 2 ^ 32
  pub tables_apart :
      (g h : ℕ)
      → g < fs.group_count
      → h < fs.group_count
      → g ≢ h
      → Apart (group_at fs g).inode_table table_blocks (group_at fs h).inode_table table_blocks

-- The place of an inode in its group.
abbrev pub index_of : {W : Type 0} → FsInstance W → ℕ → ℕ
index_of fs n = sub32 n 1 % fs.sb.inodes_per_group

module _ {W : Type 0} (fs : FsInstance W) (v : IsVolume fs) (n : ℕ) where
  byte_offset_in_table_lem : byte_offset_in_table fs n ≡ index_of fs n * inode_size fs
  unfolding byte_offset_in_table
  byte_offset_in_table_lem =
      let inside : index_of fs n < fs.sb.inodes_per_group = mod-lt _ v.per_group in
      let small : index_of fs n * inode_size fs ≤ fs.sb.inodes_per_group * inode_size fs =
        mul-le-mul_right (inode_size fs) (omega (arith, inside)) in
      mod-eq_of_lt (omega (arith, small, v.table_small))

  pub inode_offset_lem : inode_offset fs n ≡ index_of fs n % v.inodes_per_block * inode_size fs
  unfolding inode_offset
  inode_offset_lem =
      ap₂ (λ (a b : ℕ). a % b) byte_offset_in_table_lem (sym v.packed)
      ∙ mod_scaled (index_of fs n) v.inodes_per_block (inode_size fs) v.some_inodes
          (omega (arith, v.inode_room))

  pub block_offset_lem :
      byte_offset_in_table fs n / fs.block_size ≡ index_of fs n / v.inodes_per_block
  block_offset_lem =
      ap₂ (λ (a b : ℕ). a / b) byte_offset_in_table_lem (sym v.packed)
      ∙ mul-div-mul_right (index_of fs n) v.inodes_per_block (omega (arith, v.inode_room))

  -- An inode does not reach past its block.
  pub inode_offset-fits : inode_offset fs n + inode_size fs ≤ fs.block_size
  inode_offset-fits =
      let inside : index_of fs n % v.inodes_per_block < v.inodes_per_block =
        mod-lt _ v.some_inodes in
      let room : (index_of fs n % v.inodes_per_block + 1) * inode_size fs
          ≤ v.inodes_per_block * inode_size fs =
        mul-le-mul_right (inode_size fs) (omega (arith, inside)) in
      grind (arith, room, inode_offset_lem, v.packed)

  -- The block of an inode, counted in the table of its group.
  abbrev pub block_in_table : ℕ
  block_in_table = index_of fs n / v.inodes_per_block

  pub block_in_table-lt : block_in_table < v.table_blocks
  block_in_table-lt =
      (div-lt_iff_lt-mul v.some_inodes).1
        (omega (arith, v.table_fits, mod-lt (sub32 n 1) v.per_group))

  pub inode_block_num_lem :
      group_of_inode fs n < fs.group_count
      → inode_block_num fs n ≡ (group_at fs (group_of_inode fs n)).inode_table + block_in_table
  unfolding inode_block_num
  inode_block_num_lem h =
      ap (add32 (group_at fs (group_of_inode fs n)).inode_table) block_offset_lem
      ∙ mod-eq_of_lt (omega (arith, block_in_table-lt, v.tables_reach (group_of_inode fs n) h))

same_number : (a b k : ℕ) → a / k ≡ b / k → a % k ≡ b % k → a ≡ b
same_number a b k d r = sym (div-add-mod a k) ∙ ap₂ (λ (x y : ℕ). k * x + y) d r ∙ div-add-mod b k

module _ {W : Type 0} (fs : FsInstance W) (v : IsVolume fs) (n m : ℕ) where
  same_place :
      group_of_inode fs n < fs.group_count
      → group_of_inode fs m < fs.group_count
      → inode_block_num fs n ≡ inode_block_num fs m
      → (group_of_inode fs n ≡ group_of_inode fs m)
        × (block_in_table fs v n ≡ block_in_table fs v m)
  same_place gn gm e = elim (ℕ_discrete (group_of_inode fs n) (group_of_inode fs m)) [
    | no ne ↦
        absurd (overlapping (v.tables_apart (group_of_inode fs n) (group_of_inode fs m) gn gm ne))
    | yes same ↦ (same, omega (arith, block_nums, ap (λ (g : ℕ). (group_at fs g).inode_table) same))
  ]
    where
      block_nums :
          (group_at fs (group_of_inode fs n)).inode_table + block_in_table fs v n
          ≡ (group_at fs (group_of_inode fs m)).inode_table + block_in_table fs v m
      block_nums = sym (inode_block_num_lem fs v n gn) ∙ e ∙ inode_block_num_lem fs v m gm

      overlapping :
          ¬ Apart
            (group_at fs (group_of_inode fs n)).inode_table
            v.table_blocks
            (group_at fs (group_of_inode fs m)).inode_table
            v.table_blocks
      overlapping (inl a) = omega (arith, a, block_nums, block_in_table-lt fs v n)
      overlapping (inr a) = omega (arith, a, block_nums, block_in_table-lt fs v m)

  -- Two inodes in one block are two of its places.
  pub disjoint_inodes :
      0 < n
      → n < 2 ^ 32
      → 0 < m
      → m < 2 ^ 32
      → n ≢ m
      → group_of_inode fs n < fs.group_count
      → group_of_inode fs m < fs.group_count
      → inode_block_num fs n ≡ inode_block_num fs m
      → Apart (inode_offset fs m) (inode_size fs) (inode_offset fs n) (inode_size fs)
  disjoint_inodes hn ln hm lm ne gn gm e =
      rw (inode_offset_lem fs v n, inode_offset_lem fs v m)
        (disjoint_slots _ _ (inode_size fs) other_slot)
    where
      other_slot : index_of fs m % v.inodes_per_block ≢ index_of fs n % v.inodes_per_block
      other_slot s =
          let place = same_place gn gm e in
          let index = same_number _ _ v.inodes_per_block place.1 (sym s) in
          let number = same_number (sub32 n 1) (sub32 m 1) fs.sb.inodes_per_group place.0 index in
          ne (omega (arith, number))
