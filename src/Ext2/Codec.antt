-- ===== src/Ext2/Codec.antt =====
-- The bytes of the structs of src/fs/ext2/ext2.cpp read back as they were written.
use mathlib.Core.List.{append-nil}
use native.Mathlib.Nat.{pow-suc}
use weng_shi_os.Base.{
  ℕ, zero, suc, ◌+◌, ◌-◌, ◌*◌, ◌/◌, ◌^◌, ◌≤◌, ◌<◌, ◌≡◌, inl, inr, List, [], ◌∷◌, ◌++◌, length, take,
  drop, length-append, length-take, length-drop, take_past, drop_past, drop-drop, take_inside,
  take_cut, arith, refl, sym, ◌∙◌, ap, ap₂,
}
use weng_shi_os.Base.Mem.{Apart}
use weng_shi_os.Ext2.Bytes.{le, le_value, field, overlay}
use weng_shi_os.Ext2.Types.{Inode, inode_of, inode_bytes, inode_tail, words_of, words_bytes}

pub le_value-le : (w v : ℕ) → v < 256 ^ w → le_value (le w v) ≡ v
le_value-le zero v h = omega (arith, h)
le_value-le (suc w) v h =
    omega (arith, h, le_value-le w (v / 256) (omega (arith, h, pow-suc 256 w)))

pub length-le : (w v : ℕ) → length (le w v) ≡ w
length-le zero v = refl
length-le (suc w) v = ap suc (length-le w (v / 256))

pub length-overlay :
    (buf : List ℕ) (off : ℕ) (bytes : List ℕ)
    → off + length bytes ≤ length buf
    → length (overlay buf off bytes) ≡ length buf
unfolding overlay
length-overlay buf off bytes h = omega (
  arith,
  h,
  length-append (take off buf) (bytes ++ drop (off + length bytes) buf),
  length-append bytes (drop (off + length bytes) buf),
  length-take off buf,
  length-drop (off + length bytes) buf,
)

-- What was put over a buffer is there.
pub take-overlay :
    (buf : List ℕ) (off n : ℕ) (bytes : List ℕ)
    → off ≤ length buf
    → length bytes ≡ n
    → take n (drop off (overlay buf off bytes)) ≡ bytes
unfolding overlay
take-overlay buf off n bytes h e =
    ap (take n) (
      drop_past off (take off buf) (bytes ++ drop (off + length bytes) buf)
        (omega (arith, h, length-take off buf)))
    ∙ take_past n bytes (drop (off + length bytes) buf) e

-- And what stands elsewhere is as it was.
pub take-overlay_elsewhere :
    (buf : List ℕ) (off : ℕ) (bytes : List ℕ) (o k : ℕ)
    → off + length bytes ≤ length buf
    → Apart o k off (length bytes)
    → take k (drop o (overlay buf off bytes)) ≡ take k (drop o buf)
unfolding overlay
take-overlay_elsewhere buf off bytes o k h (inl before) =
    take_inside o k (take off buf) _ (omega (arith, h, before, length-take off buf))
    ∙ take_cut o k off buf before
take-overlay_elsewhere buf off bytes o k h (inr behind) =
    let e = o - (off + length bytes) in
    let o_eq : o ≡ off + length bytes + e = omega (arith, behind) in
    let tail = drop (off + length bytes) buf in
    ap (λ (n : ℕ). take k (drop n (overlay buf off bytes))) {y = off + (length bytes + e)}
      (omega (arith, behind))
    ∙ ap (take k) (
        drop-drop off (length bytes + e) (overlay buf off bytes)
        ∙ ap (drop (length bytes + e))
            (drop_past off (take off buf) (bytes ++ tail) (omega (arith, h, length-take off buf)))
        ∙ drop-drop (length bytes) e (bytes ++ tail)
        ∙ ap (drop e) (drop_past (length bytes) bytes tail refl)
        ∙ sym (drop-drop (off + length bytes) e buf)
        ∙ ap (λ (n : ℕ). drop n buf) (sym o_eq))

abbrev pub AreWords : List ℕ → Type 0
AreWords [] = Unit
AreWords (v ∷ words) = (v < 2 ^ 32) × AreWords words

pub length-words_bytes : (words : List ℕ) → length (words_bytes words) ≡ 4 * length words
unfolding words_bytes
length-words_bytes [] = refl
length-words_bytes (v ∷ words) =
    omega (arith, length-append (le 4 v) (words_bytes words), length-words_bytes words)

pub words_of-words_bytes :
    (words rest : List ℕ)
    → AreWords words
    → words_of (length words) (words_bytes words ++ rest) ≡ words
unfolding words_of words_bytes
words_of-words_bytes [] rest h = refl
words_of-words_bytes (v ∷ words) rest h =
    ap₂ (λ (a : ℕ) (b : List ℕ). a ∷ b) (le_value-le 4 v h.0) (words_of-words_bytes words rest h.1)

-- Every member fits its width.
pub record IsInode (i : Inode) : Type 0 where
  pub mode : i.mode < 2 ^ 16
  pub uid : i.uid < 2 ^ 16
  pub size : i.size < 2 ^ 32
  pub atime : i.atime < 2 ^ 32
  pub ctime : i.ctime < 2 ^ 32
  pub mtime : i.mtime < 2 ^ 32
  pub dtime : i.dtime < 2 ^ 32
  pub gid : i.gid < 2 ^ 16
  pub links_count : i.links_count < 2 ^ 16
  pub blocks : i.blocks < 2 ^ 32
  pub flags : i.flags < 2 ^ 32
  pub osd1 : i.osd1 < 2 ^ 32
  pub block_len : length i.block ≡ 15
  pub block : AreWords i.block
  pub generation : i.generation < 2 ^ 32
  pub file_acl : i.file_acl < 2 ^ 32
  pub dir_acl : i.dir_acl < 2 ^ 32
  pub faddr : i.faddr < 2 ^ 32
  pub osd2_len : length i.osd2 ≡ 12

pub length-inode_bytes : (i : Inode) → IsInode i → length (inode_bytes i) ≡ 128
unfolding inode_bytes inode_tail
length-inode_bytes i v = omega (
  arith,
  v.osd2_len,
  v.block_len,
  length-append (words_bytes i.block) (inode_tail i),
  length-words_bytes i.block,
)

-- Behind the array, whose bytes are 60.
past_array :
    (i : Inode) (k : ℕ)
    → IsInode i
    → drop (60 + k) (words_bytes i.block ++ inode_tail i) ≡ drop k (inode_tail i)
past_array i k v =
    drop-drop 60 k (words_bytes i.block ++ inode_tail i)
    ∙ ap (drop k) (
        drop_past 60 (words_bytes i.block) (inode_tail i)
          (omega (arith, length-words_bytes i.block, v.block_len)))

array_read : (i : Inode) → IsInode i → words_of 15 (words_bytes i.block ++ inode_tail i) ≡ i.block
array_read i v =
    ap (λ (n : ℕ). words_of n (words_bytes i.block ++ inode_tail i)) (sym v.block_len)
    ∙ words_of-words_bytes i.block (inode_tail i) v.block

generation_read : (i : Inode) → IsInode i → field 100 4 (inode_bytes i) ≡ i.generation
unfolding inode_bytes inode_tail
generation_read i v =
    ap (λ (t : List ℕ). le_value (take 4 t)) (past_array i 0 v)
    ∙ le_value-le 4 i.generation v.generation

file_acl_read : (i : Inode) → IsInode i → field 104 4 (inode_bytes i) ≡ i.file_acl
unfolding inode_bytes inode_tail
file_acl_read i v =
    ap (λ (t : List ℕ). le_value (take 4 t)) (past_array i 4 v)
    ∙ le_value-le 4 i.file_acl v.file_acl

dir_acl_read : (i : Inode) → IsInode i → field 108 4 (inode_bytes i) ≡ i.dir_acl
unfolding inode_bytes inode_tail
dir_acl_read i v =
    ap (λ (t : List ℕ). le_value (take 4 t)) (past_array i 8 v) ∙ le_value-le 4 i.dir_acl v.dir_acl

faddr_read : (i : Inode) → IsInode i → field 112 4 (inode_bytes i) ≡ i.faddr
unfolding inode_bytes inode_tail
faddr_read i v =
    ap (λ (t : List ℕ). le_value (take 4 t)) (past_array i 12 v) ∙ le_value-le 4 i.faddr v.faddr

osd2_read : (i : Inode) → IsInode i → take 12 (drop 116 (inode_bytes i)) ≡ i.osd2
unfolding inode_bytes inode_tail
osd2_read i v =
    ap (take 12) (past_array i 16 v)
    ∙ ap (take 12) (sym (append-nil i.osd2))
    ∙ take_past 12 i.osd2 [] v.osd2_len

block_read : (i : Inode) → IsInode i → words_of 15 (drop 40 (inode_bytes i)) ≡ i.block
unfolding inode_bytes
block_read i v = array_read i v

-- An inode that is written as bytes reads back, member by member.
pub inode_of-inode_bytes : (i : Inode) → IsInode i → inode_of (inode_bytes i) ≡ i
unfolding inode_of inode_bytes words_of
inode_of-inode_bytes i v =
    rw
      (
        le_value-le 2 i.mode v.mode,
        le_value-le 2 i.uid v.uid,
        le_value-le 4 i.size v.size,
        le_value-le 4 i.atime v.atime,
        le_value-le 4 i.ctime v.ctime,
        le_value-le 4 i.mtime v.mtime,
        le_value-le 4 i.dtime v.dtime,
        le_value-le 2 i.gid v.gid,
        le_value-le 2 i.links_count v.links_count,
        le_value-le 4 i.blocks v.blocks,
        le_value-le 4 i.flags v.flags,
        le_value-le 4 i.osd1 v.osd1,
      )
      (rw
        (
          block_read i v,
          generation_read i v,
          file_acl_read i v,
          dir_acl_read i v,
          faddr_read i v,
          osd2_read i v,
        )
        refl)
