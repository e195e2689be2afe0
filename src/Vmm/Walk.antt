-- ===== src/Vmm/Walk.antt =====
-- The way of `mapPage` through the tables, in src/mm/vmm.cpp, and how the call ends.
use weng_shi_os.Base.{ℕ, ◌+◌, ◌*◌, ◌<◌, if◌then◌else◌, ◌/◌, ◌%◌, ◌^◌, ◌≡◌, ◌≢◌, Option, none, some}
use weng_shi_os.Base.Word.{u64_max}
use weng_shi_os.Pmm.{Pmm, alloc_frame}
use weng_shi_os.Vmm.{
  Vmm, is_present, is_huge, pdpt_virt, pd_virt, pt_virt, index4, index3, index2, index1, entry4,
  entry3, entry2, entry1,
}
use weng_shi_os.Vmm.Fill.{Outside, Needs, Table, part_of}
use weng_shi_os.Vmm.Ensure.{seen}

-- The entries of the two lower tables as the way to the address shows them before the call.
abbrev pub third_seen : Vmm → ℕ → ℕ
third_seen v va = seen (v.words (entry4 va)) (v.words (entry3 va))

abbrev pub second_seen : Vmm → ℕ → ℕ
second_seen v va = seen (third_seen v va) (v.words (entry2 va))

-- The other entries of the last table: those that were there; in a new table the parts of the page
-- of 2 MiB that stood in its place, or zeros.
abbrev pub leaf_seen : Vmm → ℕ → ℕ → ℕ
leaf_seen v va j =
    let upper = second_seen v va in
    if is_present upper
    then if is_huge upper
      then part_of upper j
      else v.words (pt_virt (index4 va) (index3 va) (index2 va) + 8 * j)
    else 0

-- Neither the entry of the top table, nor in one of the three tables below.
abbrev pub Away : ℕ → ℕ → Type 0
Away va q =
    (entry4 va ≢ q)
    × Outside (pdpt_virt (index4 va)) 0 512 q
    × Outside (pd_virt (index4 va) (index3 va)) 0 512 q
    × Outside (pt_virt (index4 va) (index3 va) (index2 va)) 0 512 q

-- How the call ends. It maps the page: each table on the way is the one that was there, or a new one
-- on the frame that the frame manager gave, in the order from the top; the entry is written, the
-- other entries of its table are as `leaf_seen` says; and no word changes outside the tables. Or it halts at a huge entry of the top table. Or a table is needed, and
-- the frame manager has no frame left after those it gave for the tables above.
pub data Mapped (v : Vmm) (va entry : ℕ) (r : Option Vmm) : Type 0 where
  mapped :
      (v' : Vmm) (pmm1 pmm2 : Pmm)
      → r ≡ some v'
      → Table v.pmm (v.words (entry4 va)) (v'.words (entry4 va)) pmm1
      → Table pmm1 (third_seen v va) (v'.words (entry3 va)) pmm2
      → Table pmm2 (second_seen v va) (v'.words (entry2 va)) v'.pmm
      → v'.words (entry1 va) ≡ entry
      → ((j : ℕ)
          → j < 512
          → j ≢ index1 va
          → v'.words (pt_virt (index4 va) (index3 va) (index2 va) + 8 * j) ≡ leaf_seen v va j)
      → ((q : ℕ) → Away va q → v'.words q ≡ v.words q)
      → Mapped v va entry r
  huge_top :
      r ≡ none
      → v.words (entry4 va) % 2 ≡ 1
      → v.words (entry4 va) / 2 ^ 7 % 2 ≡ 1
      → Mapped v va entry r
  no_third :
      r ≡ none → Needs (v.words (entry4 va)) → (alloc_frame v.pmm).1 ≡ u64_max → Mapped v va entry r
  no_second :
      (new4 : ℕ) (pmm1 : Pmm)
      → r ≡ none
      → Table v.pmm (v.words (entry4 va)) new4 pmm1
      → Needs (third_seen v va)
      → (alloc_frame pmm1).1 ≡ u64_max
      → Mapped v va entry r
  no_last :
      (new4 new3 : ℕ) (pmm1 pmm2 : Pmm)
      → r ≡ none
      → Table v.pmm (v.words (entry4 va)) new4 pmm1
      → Table pmm1 (third_seen v va) new3 pmm2
      → Needs (second_seen v va)
      → (alloc_frame pmm2).1 ≡ u64_max
      → Mapped v va entry r
