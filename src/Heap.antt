-- ===== src/Heap.antt =====
-- src/mm/heap.cpp: the kernel's allocator. The chain of block headers is a list in the order of the
-- `next` pointers; `prev` of a block is the one before it. Mapping a page is an argument, a function
-- over the state `W` of the page tables and frames.
pub mod Chain
pub mod Malloc
pub mod Find
pub mod Merge
pub mod Free
pub mod Grow
pub mod Extend
pub mod Alloc
pub mod Totals
pub mod Granted
mod Tests
use weng_shi_os.Base.{
  ℕ, zero, suc, ◌+◌, ◌-◌, ◌*◌, ◌/◌, ◌%◌, ◌^◌, Bool, true, false, not, ◌==◌, ◌&&◌, ltb, leb, List,
  [], ◌∷◌, ◌++◌, Option, none, some, if◌then◌else◌,
}
use weng_shi_os.Base.Word.{add64, sub64}

pub record Block : Type 0 where
  pub at : ℕ
  pub size : ℕ
  pub free : Bool

pub record Heap : Type 0 where
  pub blocks : List Block
  pub current_end : ℕ
  pub mapped_end : ℕ

abbrev pub heap_start : ℕ
heap_start = 0xFFFFFFFFC0000000

abbrev pub heap_initial_size : ℕ
heap_initial_size = 64 * 1024

abbrev pub heap_max_size : ℕ
heap_max_size = 64 * 1024 * 1024

abbrev pub header_size : ℕ
header_size = 32

abbrev pub alignment : ℕ
alignment = 16

abbrev pub page_size : ℕ
page_size = 4096

-- `(value + align - 1) & ~(align - 1)` for an alignment that is a power of two.
unfoldable pub align_up : ℕ → ℕ → ℕ
align_up value align = let v = sub64 (add64 value align) 1 in v - v % align

-- The first block that is free and large enough, split if the rest can hold a block.
unfoldable pub split : Block → ℕ → List Block
split b size =
    if leb (add64 (add64 size header_size) alignment) b.size
    then record b { size = size; free = false }
      ∷ record {
        at = b.at + header_size + size;
        size = sub64 (sub64 b.size size) header_size;
        free = true;
      }
      ∷ []
    else record b { free = false } ∷ []

unfoldable pub take_fit : ℕ → List Block → Option (List Block × ℕ)
take_fit size [] = none
take_fit size (b ∷ bs) = elim (b.free && leb size b.size) [
  | true ↦ some (split b size ++ bs, b.at + header_size)
  | false ↦ elim (take_fit size bs) [ none ↦ none | some (rest, p) ↦ some (b ∷ rest, p) ]
]

-- The block at an address, between the blocks before it, the nearest first, and those after it.
unfoldable pub find_block : List Block → ℕ → List Block → Option (List Block × Block × List Block)
find_block before at [] = none
find_block before at (b ∷ bs) = elim (b.at == at) [
  | true ↦ some (before, b, bs)
  | false ↦ find_block (b ∷ before) at bs
]

unfoldable pub relink : List Block → List Block → List Block
relink [] bs = bs
relink (p ∷ ps) bs = relink ps (p ∷ bs)

unfoldable pub merge_next : Block → List Block → Block × List Block
merge_next b [] = (b, [])
merge_next b (n ∷ rest) =
    if n.free
    then (record b { size = add64 b.size (add64 header_size n.size) }, rest)
    else (b, n ∷ rest)

unfoldable pub merge_prev : List Block → Block → List Block → List Block
merge_prev [] b after = b ∷ after
merge_prev (p ∷ ps) b after =
    if p.free
    then relink ps (record p { size = add64 p.size (add64 header_size b.size) } ∷ after)
    else relink (p ∷ ps) (b ∷ after)

-- `none` for a pointer that no block has, which C++ leaves undefined.
unfoldable pub kfree : Heap → ℕ → Option Heap
kfree h ptr = elim (ptr == 0) [
  | true ↦ some h
  | false ↦ elim (find_block [] (ptr - header_size) h.blocks) [
    | none ↦ none
    | some (before, b, after) ↦
        let (b', after') = merge_next (record b { free = true }) after in
        some (record h { blocks = merge_prev before b' after' })
  ]
]

-- The loops of `totalAllocated` and `totalFree`, with the total so far.
unfoldable pub total : (Block → Bool) → ℕ → List Block → ℕ
total counts sum [] = sum
total counts sum (b ∷ bs) = total counts (if counts b then add64 sum b.size else sum) bs

unfoldable pub total_allocated : Heap → ℕ
unfolding total
total_allocated h = total (λ b. not b.free) 0 h.blocks

unfoldable pub total_free : Heap → ℕ
unfolding total
total_free h = total (λ b. b.free) 0 h.blocks

abbrev pub grow_amount : ℕ → ℕ
grow_amount size = if ltb (add64 size header_size) 4096 then 4096 else add64 size header_size

-- The new block behind the tail, where the heap `h` grew to `h'`.
abbrev pub fresh_block : Heap → Heap → Block
fresh_block h h' = record {
  at = h.mapped_end;
  size = sub64 (sub64 h'.mapped_end h.mapped_end) header_size;
  free = true;
}

-- The blocks with a new one behind the tail. `none` if there are no blocks: the tail is null then,
-- and C++ leaves the write to its `next` undefined.
unfoldable pub append_block : List Block → Block → Option (List Block)
append_block [] fresh = none
append_block (b ∷ bs) fresh = some (b ∷ bs ++ fresh ∷ [])

module _ {W : Type 0} (alloc_and_map_page : W → ℕ → W × Bool) where
  -- The loop of `growHeap`, with the pages left.
  unfoldable pub map_pages : ℕ → Heap → W → (Heap × W) × Bool
  map_pages zero h w = ((h, w), true)
  map_pages (suc n) h w =
      let (w', mapped) = alloc_and_map_page w h.mapped_end in
      elim mapped [
        | true ↦ map_pages n (record h { mapped_end = add64 h.mapped_end page_size }) w'
        | false ↦ ((h, w'), false)
      ]

  unfoldable pub grow_heap : Heap → W → ℕ → (Heap × W) × Bool
  grow_heap h w min_bytes =
      let bytes_needed = align_up min_bytes page_size in
      elim (ltb (heap_start + heap_max_size) (add64 h.mapped_end bytes_needed)) [
        | true ↦ ((h, w), false)
        | false ↦ map_pages (bytes_needed / page_size) h w
      ]

  -- `none` for the halt when the first pages cannot be had.
  unfoldable pub init : Heap → W → Option (Heap × W)
  init h w =
      let ((h', w'), grown) = grow_heap h w heap_initial_size in
      elim grown [
        | false ↦ none
        | true ↦ some (
          record h' {
            blocks =
                record { at = heap_start; size = heap_initial_size - header_size; free = true }
                ∷ [];
            current_end = h'.mapped_end;
          },
          w',
        )
      ]

  -- The pointer is 0 for null. The call calls itself once the heap has grown; the fuel bounds
  -- those calls.
  unfoldable pub kmalloc : ℕ → Heap → W → ℕ → Option ((Heap × W) × ℕ)
  kmalloc zero h w asked = none
  kmalloc (suc fuel) h w asked = elim (asked == 0) [
    | true ↦ some ((h, w), 0)
    | false ↦
        let size = align_up asked alignment in
        elim (take_fit size h.blocks) [
          | some (blocks, p) ↦ some ((record h { blocks = blocks }, w), p)
          | none ↦
              let ((h', w'), grown) = grow_heap h w (grow_amount size) in
              elim grown [
                | false ↦ some ((h', w'), 0)
                | true ↦ elim (append_block h'.blocks (fresh_block h h')) [
                  | none ↦ none
                  | some longer ↦ kmalloc fuel (record h' { blocks = longer }) w' size
                ]
              ]
        ]
  ]
