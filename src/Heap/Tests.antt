-- ===== src/Heap/Tests.antt =====
-- Tests of the model of src/mm/heap.cpp.
use weng_shi_os.Base.{ℕ, ◌+◌, ◌≡◌, ◌≢◌, Bool, true, false, [], ◌∷◌, some, refl, arith}
use weng_shi_os.Heap.{Heap, heap_start, align_up, take_fit, split, kfree, kmalloc}
use weng_shi_os.Heap.Chain.{IsValid, used}
use weng_shi_os.Heap.Extend.{Returns}
use weng_shi_os.Heap.Alloc.{kmalloc-Returns}
use weng_shi_os.Heap.Free.{kfree-IsValid}
use weng_shi_os.Heap.Granted.{Granted, kmalloc-Granted}
use weng_shi_os.Heap.Totals.{kfree-kmalloc}

-- Page tables that count the pages.
abbrev counting : ℕ → ℕ → ℕ × Bool
counting n v = (n + 1, true)

-- 64 KiB, of which the first block of 112 bytes is taken.
abbrev small_heap : Heap
small_heap = record {
  blocks =
      record { at = heap_start; size = 112; free = false }
      ∷ record { at = heap_start + 144; size = 65360; free = true }
      ∷ [];
  current_end = heap_start + 65536;
  mapped_end = heap_start + 65536;
}

small_heap_begun : small_heap.blocks ≢ []
small_heap_begun = λ e. cc

small_heap-IsValid : IsValid small_heap
small_heap-IsValid = record {
  chain = (omega arith, refl, refl, (omega arith, refl, refl, omega arith));
  pages = refl;
  bounded = omega arith;
}

kmalloc-Returns_example : Returns small_heap 100000 (kmalloc counting 2 small_heap 7 100000)
kmalloc-Returns_example =
    kmalloc-Returns counting 0 small_heap 7 100000 small_heap-IsValid (omega arith) (omega arith)
      small_heap_begun

kfree-IsValid_example :
    (h' : Heap) × (kfree small_heap (heap_start + 32) ≡ some h')
    × IsValid h'
    × (used h'.blocks ≡ [])
    × (h'.mapped_end ≡ small_heap.mapped_end)
kfree-IsValid_example = kfree-IsValid small_heap (heap_start + 32) 112 [] [] small_heap-IsValid refl

abbrev allocated : Heap
allocated = record {
  blocks =
      record { at = heap_start; size = 112; free = false }
      ∷ record { at = heap_start + 144; size = 208; free = false }
      ∷ record { at = heap_start + 384; size = 65120; free = true }
      ∷ [];
  current_end = heap_start + 65536;
  mapped_end = heap_start + 65536;
}

kmalloc_200 : kmalloc counting 2 small_heap 7 200 ≡ some ((allocated, 7), heap_start + 176)
unfolding kmalloc align_up take_fit split
kmalloc_200 = refl

kfree-kmalloc_example :
    (h'' : Heap) × (kfree allocated (heap_start + 176) ≡ some h'')
    × IsValid h''
    × (used h''.blocks ≡ used small_heap.blocks)
kfree-kmalloc_example =
    kfree-kmalloc counting 0 small_heap allocated 7 7 200 (heap_start + 176) small_heap-IsValid
      (omega arith) (omega arith) kmalloc_200 (λ e. omega (arith, e)) small_heap_begun

kmalloc-Granted_example : Granted small_heap allocated 200 (heap_start + 176)
kmalloc-Granted_example =
    kmalloc-Granted counting 0 small_heap allocated 7 7 200 (heap_start + 176) small_heap-IsValid
      (omega arith) (omega arith) kmalloc_200 (λ e. omega (arith, e)) small_heap_begun

abbrev no_heap : Heap
no_heap = record { blocks = []; current_end = heap_start; mapped_end = heap_start }
