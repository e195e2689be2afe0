-- ===== src/Pmm.antt =====
-- src/mm/pmm.cpp: the physical frame allocator, a bitmap with one bit for each 4 KiB frame.
-- A set bit means that the frame is in use.
pub mod Bitmap
pub mod Alloc
pub mod Region
pub mod Init
mod Tests
use Prim.Native.Nat.{bit_and, bit_or}
use weng_shi_os.Base.{
  ℕ, zero, suc, ◌+◌, ◌-◌, ◌*◌, ◌/◌, ◌%◌, ◌^◌, Bool, true, false, not, ◌==◌, ltb, List, set, get_or,
}
use weng_shi_os.Base.Word.{u64_max, add64, sub64, mul64}

abbrev pub frame_size : ℕ
frame_size = 4096

-- The members of `PhysicalMemoryManager`. The bytes at `bitmap_` are the list's elements.
pub record Pmm : Type 0 where
  pub bitmap : List ℕ
  pub total_frames : ℕ
  pub used_frames : ℕ
  pub search_hint : ℕ

unfoldable pub bitmap_size_for : ℕ → ℕ
bitmap_size_for highest_address = (highest_address / frame_size + 7) / 8

-- The loop of `init`, with the rounds left and the index of the next byte.
fill_bytes : ℕ → ℕ → List ℕ → List ℕ
fill_bytes zero i bitmap = bitmap
fill_bytes (suc n) i bitmap = fill_bytes n (i + 1) (set bitmap i 0xFF)

unfoldable pub init : ℕ → List ℕ → Pmm
unfolding bitmap_size_for fill_bytes
init highest_address storage = record {
  bitmap = fill_bytes (bitmap_size_for highest_address) 0 storage;
  total_frames = highest_address / frame_size;
  used_frames = highest_address / frame_size;
  search_hint = 0;
}

unfoldable pub set_bit : List ℕ → ℕ → List ℕ
set_bit bitmap frame =
    set bitmap (frame / 8) (bit_or (get_or bitmap (frame / 8) 0) (2 ^ (frame % 8)))

-- `~(1 << k)`, cut to the byte that it is stored in, is 0xFF less the bit.
unfoldable pub clear_bit : List ℕ → ℕ → List ℕ
clear_bit bitmap frame =
    set bitmap (frame / 8) (bit_and (get_or bitmap (frame / 8) 0) (2 ^ 8 - 1 - 2 ^ (frame % 8)))

unfoldable pub test_bit : List ℕ → ℕ → Bool
test_bit bitmap frame = not (bit_and (get_or bitmap (frame / 8) 0) (2 ^ (frame % 8)) == 0)

-- The body of each region loop, and the loop with the rounds left and the current frame.
release_frame : Pmm → ℕ → Pmm
release_frame p frame = elim (test_bit p.bitmap frame) [
  | true ↦ record p { bitmap = clear_bit p.bitmap frame; used_frames = sub64 p.used_frames 1 }
  | false ↦ p
]

claim_frame : Pmm → ℕ → Pmm
claim_frame p frame = elim (test_bit p.bitmap frame) [
  | false ↦ record p { bitmap = set_bit p.bitmap frame; used_frames = add64 p.used_frames 1 }
  | true ↦ p
]

region_loop : (Pmm → ℕ → Pmm) → ℕ → ℕ → Pmm → Pmm
region_loop body zero frame p = p
region_loop body (suc n) frame p = elim (ltb frame p.total_frames) [
  | true ↦ region_loop body n (frame + 1) (body p frame)
  | false ↦ p
]

unfoldable pub mark_region_free : Pmm → ℕ → ℕ → Pmm
unfolding region_loop release_frame
mark_region_free p base len =
    let start_frame = base / frame_size in
    let end_frame = add64 base len / frame_size in
    region_loop release_frame (end_frame - start_frame) start_frame p

unfoldable pub mark_region_used : Pmm → ℕ → ℕ → Pmm
unfolding region_loop claim_frame
mark_region_used p base len =
    let start_frame = base / frame_size in
    let end_frame = sub64 (add64 (add64 base len) frame_size) 1 / frame_size in
    region_loop claim_frame (end_frame - start_frame) start_frame p

-- The search of `allocFrame`, with the rounds left.
alloc_loop : ℕ → ℕ → Pmm → Pmm × ℕ
alloc_loop zero i p = (p, u64_max)
alloc_loop (suc n) i p =
    let frame = add64 p.search_hint i % p.total_frames in
    elim (test_bit p.bitmap frame) [
      | false ↦ (
        record p {
          bitmap = set_bit p.bitmap frame;
          used_frames = add64 p.used_frames 1;
          search_hint = add64 frame 1;
        },
        mul64 frame frame_size,
      )
      | true ↦ alloc_loop n (i + 1) p
    ]

unfoldable pub alloc_frame : Pmm → Pmm × ℕ
unfolding alloc_loop
alloc_frame p = alloc_loop p.total_frames 0 p

unfoldable pub free_frame : Pmm → ℕ → Pmm
unfolding release_frame
free_frame p phys_address =
    let frame = phys_address / frame_size in
    elim (ltb frame p.total_frames) [ true ↦ release_frame p frame | false ↦ p ]

pub free_frames : Pmm → ℕ
free_frames p = sub64 p.total_frames p.used_frames
