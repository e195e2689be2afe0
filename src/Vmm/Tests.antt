-- ===== src/Vmm/Tests.antt =====
-- Tests of the model of src/mm/vmm.cpp.
use Prim.Native.Nat.{bit_or}
use weng_shi_os.Base.{◌≡◌, refl, some, arith, [], ◌∷◌}
use weng_shi_os.Base.Mem.{poke}
use weng_shi_os.Vmm.{Vmm, ensure_table, entry1, map_page, unmap_page}
use weng_shi_os.Vmm.Walk.{Mapped}
use weng_shi_os.Vmm.Mapped.{map_page-Mapped}
use weng_shi_os.Vmm.Unmapped.{Cleared, unmap_page-map_page}

-- No entry is present, and seven of ten frames are free.
abbrev no_tables : Vmm
no_tables = record {
  words = λ q. 0;
  pmm = record { bitmap = 11 ∷ 0 ∷ []; total_frames = 10; used_frames = 3; search_hint = 3 };
}

-- The heap starts at 0xFFFFFFFFC0000000, in entry 511 of the top table.
map_page-Mapped_example :
    Mapped no_tables 0xFFFFFFFFC0000000
      (bit_or (bit_or 0x5000 2) 1)
      (map_page no_tables 0xFFFFFFFFC0000123 0x5000 2)
map_page-Mapped_example =
    map_page-Mapped no_tables 0xFFFFFFFFC0000123 0x5000 2 (λ e. omega (arith, e)) refl

-- Every entry of every table is present, with no bit else.
abbrev full : Vmm
full = record {
  words = λ q. 1;
  pmm = record { bitmap = []; total_frames = 0; used_frames = 0; search_hint = 0 };
}

abbrev full_mapped : Vmm
full_mapped = record full {
  words = poke full.words (entry1 0xFFFFFFFFC0000000) (bit_or (bit_or 0x5000 2) 1);
}

map_full : map_page full 0xFFFFFFFFC0000123 0x5000 2 ≡ some full_mapped
unfolding map_page ensure_table
map_full = refl

unmap_page-map_page_example :
    Cleared full full_mapped
      (unmap_page full_mapped 0xFFFFFFFFC0000123)
      0xFFFFFFFFC0000000
      (bit_or (bit_or 0x5000 2) 1)
unmap_page-map_page_example =
    unmap_page-map_page full full_mapped 0xFFFFFFFFC0000123 0x5000 2 (λ e. omega (arith, e)) refl
      map_full
