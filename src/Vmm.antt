-- ===== src/Vmm.antt =====
-- src/mm/vmm.cpp: page tables. `words` is the memory of 64-bit words by address, as the recursive entry
-- 510 shows the tables; `pmm` is `g_pmm`. Flushing of the processor's cache of addresses, and the log
-- lines, are left out. `none` is the halt on a huge page of 512 GiB, or a table for which no frame is
-- left, after which the source writes through a window that shows no table.
pub mod Window
pub mod Fill
pub mod Ensure
pub mod Places
pub mod Walk
pub mod Mapped
pub mod Unmapped
mod Tests
use Prim.Native.Nat.{bit_and, bit_or}
use weng_shi_os.Base.{
  ℕ, zero, suc, ◌+◌, ◌-◌, ◌*◌, ◌/◌, ◌%◌, ◌^◌, Bool, true, false, ◌==◌, ◌&&◌, Option, none, some,
  if◌then◌else◌,
}
use weng_shi_os.Base.Word.{u64_max}
use weng_shi_os.Base.Mem.{Mem, poke}
use weng_shi_os.Pmm.{Pmm, alloc_frame}

pub record Vmm : Type 0 where
  pub words : Mem
  pub pmm : Pmm

abbrev pub recursive_index : ℕ
recursive_index = 510

abbrev pub kernel_pml4_index : ℕ
kernel_pml4_index = 511

abbrev pub addr_mask : ℕ
addr_mask = 0x000FFFFFFFFFF000

abbrev pub page_bytes : ℕ
page_bytes = 4096

abbrev pub huge_2mb : ℕ
huge_2mb = 512 * page_bytes

abbrev pub huge_1gb : ℕ
huge_1gb = 512 * huge_2mb

-- The tests of PAGE_PRESENT and PAGE_SIZE_BIT, bits 0 and 7.
abbrev pub is_present : ℕ → Bool
is_present entry = entry % 2 == 1

abbrev pub is_huge : ℕ → Bool
is_huge entry = entry / 2 ^ 7 % 2 == 1

unfoldable pub canonicalize : ℕ → ℕ
canonicalize addr = if bit_and addr (2 ^ 47) == 0 then addr else bit_or addr 0xFFFF000000000000

-- The window at four indices, which are below 512.
unfoldable pub window : ℕ → ℕ → ℕ → ℕ → ℕ
window a b c d =
    canonicalize (bit_or (bit_or (bit_or (a * 2 ^ 39) (b * 2 ^ 30)) (c * 2 ^ 21)) (d * 2 ^ 12))

abbrev pub pml4_virt : ℕ
pml4_virt = window recursive_index recursive_index recursive_index recursive_index

abbrev pub pdpt_virt : ℕ → ℕ
pdpt_virt pml4_idx = window recursive_index recursive_index recursive_index pml4_idx

abbrev pub pd_virt : ℕ → ℕ → ℕ
pd_virt pml4_idx pdpt_idx = window recursive_index recursive_index pml4_idx pdpt_idx

abbrev pub pt_virt : ℕ → ℕ → ℕ → ℕ
pt_virt pml4_idx pdpt_idx pd_idx = window recursive_index pml4_idx pdpt_idx pd_idx

-- Where entry `i` of a table stands.
abbrev pub entry_at : ℕ → ℕ → ℕ
entry_at table i = table + 8 * i

-- The loops that write entry after entry, with the rounds left.
unfoldable pub fill_words : ℕ → ℕ → ℕ → (ℕ → ℕ) → Mem → Mem
fill_words zero i table value words = words
fill_words (suc n) i table value words =
    fill_words n (i + 1) table value (poke words (entry_at table i) (value i))

unfoldable pub zero_page : ℕ → Mem → Mem
zero_page virt words = fill_words 512 0 virt (λ i. 0) words

-- `new_frame | PAGE_PRESENT | PAGE_WRITABLE | PAGE_USER`
unfoldable pub table_entry : ℕ → ℕ
table_entry new_frame = bit_or (bit_or (bit_or new_frame 1) 2) 4

-- The frame comes from the frame manager, which answers 2 ^ 64 - 1 when there is none. The source
-- does not test for that: the entry gets all ones, the window shows no table, and zeroing it faults.
unfoldable pub link_new_table : Vmm → ℕ → ℕ → Option Vmm
link_new_table v parent child =
    let (pmm, new_frame) = alloc_frame v.pmm in
    elim (new_frame == u64_max) [
      | true ↦ none
      | false ↦ some (record {
        words = zero_page child (poke v.words parent (table_entry new_frame));
        pmm = pmm;
      })
    ]

-- The flags that stay are bits 0 to 4.
unfoldable pub split_huge_page : Vmm → ℕ → ℕ → ℕ → Option Vmm
split_huge_page v parent child huge_page_size =
    let huge_entry = v.words parent in
    let huge_base = bit_and huge_entry addr_mask in
    let flags = bit_and huge_entry 0x1F in
    elim (link_new_table v parent child) [
      | none ↦ none
      | some v' ↦ some (record v' {
        words =
            fill_words (huge_page_size / page_bytes) 0 child
              (λ i. bit_or ((huge_base + i * page_bytes) % 2 ^ 64) flags) v'.words;
      })
    ]

-- The frame of the table, which the source returns, no caller uses.
unfoldable pub ensure_table : Vmm → ℕ → ℕ → ℕ → Option Vmm
ensure_table v parent child huge_page_size = elim (is_present (v.words parent)) [
  | false ↦ link_new_table v parent child
  | true ↦ elim (is_huge (v.words parent)) [
    | false ↦ some v
    | true ↦ elim (huge_page_size == 0) [
      | true ↦ none
      | false ↦ split_huge_page v parent child huge_page_size
    ]
  ]
]

abbrev pub index4 : ℕ → ℕ
index4 addr = addr / 2 ^ 39 % 2 ^ 9

abbrev pub index3 : ℕ → ℕ
index3 addr = addr / 2 ^ 30 % 2 ^ 9

abbrev pub index2 : ℕ → ℕ
index2 addr = addr / 2 ^ 21 % 2 ^ 9

abbrev pub index1 : ℕ → ℕ
index1 addr = addr / 2 ^ 12 % 2 ^ 9

-- The entries on the way to an address, from the top.
abbrev pub entry4 : ℕ → ℕ
entry4 addr = entry_at pml4_virt (index4 addr)

abbrev pub entry3 : ℕ → ℕ
entry3 addr = entry_at (pdpt_virt (index4 addr)) (index3 addr)

abbrev pub entry2 : ℕ → ℕ
entry2 addr = entry_at (pd_virt (index4 addr) (index3 addr)) (index2 addr)

abbrev pub entry1 : ℕ → ℕ
entry1 addr = entry_at (pt_virt (index4 addr) (index3 addr) (index2 addr)) (index1 addr)

abbrev pub page_of : ℕ → ℕ
page_of addr = addr - addr % page_bytes

unfoldable pub map_page : Vmm → ℕ → ℕ → ℕ → Option Vmm
map_page v virtual_addr physical_addr flags =
    let va = page_of virtual_addr in
    let pa = page_of physical_addr in
    elim (ensure_table v (entry4 va) (pdpt_virt (index4 va)) 0) [
      | none ↦ none
      | some v1 ↦ elim (ensure_table v1 (entry3 va) (pd_virt (index4 va) (index3 va)) huge_1gb) [
        | none ↦ none
        | some v2 ↦
            elim (ensure_table v2 (entry2 va) (pt_virt (index4 va) (index3 va) (index2 va))
              huge_2mb) [
                | none ↦ none
                | some v3 ↦
                    some
                      (record v3 { words = poke v3.words (entry1 va) (bit_or (bit_or pa flags) 1) })
              ]
      ]
    ]

unfoldable pub unmap_page : Vmm → ℕ → Vmm
unmap_page v virtual_addr =
    let va = page_of virtual_addr in
    if is_present (v.words (entry4 va))
      && (is_present (v.words (entry3 va)) && is_present (v.words (entry2 va)))
    then record v { words = poke v.words (entry1 va) 0 }
    else v

unfoldable pub alloc_and_map_page : Vmm → ℕ → ℕ → Option (Vmm × Bool)
alloc_and_map_page v virtual_addr flags =
    let (pmm, frame) = alloc_frame v.pmm in
    let v' : Vmm = record v { pmm = pmm } in
    elim (frame == u64_max) [
      | true ↦ some (v', false)
      | false ↦ elim (map_page v' virtual_addr frame flags) [
        | none ↦ none
        | some v'' ↦ some (v'', true)
      ]
    ]

abbrev pub scratch_virt : ℕ
scratch_virt = 0xFFFFFFFFC6000000

-- The new top table is written through the scratch page.
unfoldable pub create_address_space : Vmm → Option (Vmm × ℕ)
create_address_space v =
    let (pmm, new_pml4_phys) = alloc_frame v.pmm in
    let v' : Vmm = record v { pmm = pmm } in
    elim (new_pml4_phys == u64_max) [
      | true ↦ some (v', 0)
      | false ↦ elim (map_page v' scratch_virt new_pml4_phys 2) [
        | none ↦ none
        | some v1 ↦
            let empty = fill_words 512 0 scratch_virt (λ i. 0) v1.words in
            let low = poke empty scratch_virt (empty pml4_virt) in
            let own =
              poke low (entry_at scratch_virt recursive_index)
                (bit_or (bit_or new_pml4_phys 1) 2) in
            let kernel =
              poke own (entry_at scratch_virt kernel_pml4_index)
                (own (entry_at pml4_virt kernel_pml4_index)) in
            some (unmap_page (record v1 { words = kernel }) scratch_virt, new_pml4_phys)
      ]
    ]
