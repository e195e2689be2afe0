-- ===== src/Vmm/Fill.antt =====
-- New tables and split pages in src/mm/vmm.cpp.
use Prim.Native.Nat.{bit_and, bit_or}
use weng_shi_os.Base.{
  ℕ, zero, suc, ◌+◌, ◌*◌, ◌/◌, ◌%◌, ◌^◌, ◌≤◌, ◌<◌, ◌≡◌, ◌≢◌, ◌⊎◌, ◌==◌, true, false, inl, inr, none,
  some, arith, refl, ap, ◌∙◌,
}
use weng_shi_os.Base.Bits.{bit_or_step}
use weng_shi_os.Base.Word.{u64_max}
use weng_shi_os.Base.Mem.{Mem, poke}
use weng_shi_os.Pmm.{Pmm, alloc_frame}
use weng_shi_os.Vmm.{
  Vmm, addr_mask, fill_words, zero_page, table_entry, link_new_table, split_huge_page,
}

-- An address outside the `n` entries of a table from entry `i` on.
abbrev pub Outside : ℕ → ℕ → ℕ → ℕ → Type 0
Outside table i n q = (q < table + 8 * i) ⊎ (table + 8 * (i + n) ≤ q)

pub poke-other : (m : Mem) (p v q : ℕ) → p ≢ q → poke m p v q ≡ m q
poke-other m p v q ne = ground (arith, ne)

pub fill_words-Outside :
    (n i table : ℕ) (value : ℕ → ℕ) (m : Mem) (q : ℕ)
    → Outside table i n q
    → fill_words n i table value m q ≡ m q
unfolding fill_words
fill_words-Outside zero i table value m q o = refl
fill_words-Outside (suc n) i table value m q o =
    fill_words-Outside n (i + 1) table value (poke m (table + 8 * i) (value i)) q (later o)
    ∙ poke-other m (table + 8 * i) (value i) q (λ e. here o e)
  where
    later : Outside table i (suc n) q → Outside table (i + 1) n q
    later (inl l) = inl (omega (arith, l))
    later (inr l) = inr (omega (arith, l))

    here : Outside table i (suc n) q → table + 8 * i ≢ q
    here (inl l) = λ e. omega (arith, l, e)
    here (inr l) = λ e. omega (arith, l, e)

pub table_entry_odd : (f : ℕ) → table_entry f % 2 ≡ 1
unfolding table_entry
table_entry_odd f =
    omega
      (arith, bit_or_step (bit_or (bit_or f 1) 2) 4, bit_or_step (bit_or f 1) 2, bit_or_step f 1)

-- No table can be used behind an entry that is not present, or that is huge.
abbrev pub Needs : ℕ → Type 0
Needs old = (old % 2 ≡ 0) ⊎ (old / 2 ^ 7 % 2 ≡ 1)

-- The entry for a table before and after a call, and the frame manager: a table that is there stays;
-- else the entry points to the frame that the frame manager gives, for all to use and write.
pub data Table (pmm : Pmm) (old new : ℕ) (pmm' : Pmm) : Type 0 where
  there : old % 2 ≡ 1 → old / 2 ^ 7 % 2 ≡ 0 → new ≡ old → pmm' ≡ pmm → Table pmm old new pmm'
  linked :
      Needs old
      → (alloc_frame pmm).1 ≢ u64_max
      → new ≡ table_entry (alloc_frame pmm).1
      → pmm' ≡ (alloc_frame pmm).0
      → Table pmm old new pmm'

pub Table-present : (pmm pmm' : Pmm) (old new : ℕ) → Table pmm old new pmm' → new % 2 ≡ 1
Table-present pmm pmm' old new (there p h e m) = ap (λ (n : ℕ). n % 2) e ∙ p
Table-present pmm pmm' old new (linked n f e m) =
    ap (λ (n : ℕ). n % 2) e ∙ table_entry_odd (alloc_frame pmm).1

-- Entry `j` of the table that takes the place of a huge page: the part of the page, with its flags.
abbrev pub part_of : ℕ → ℕ → ℕ
part_of huge_entry j =
    bit_or ((bit_and huge_entry addr_mask + j * 4096) % 2 ^ 64) (bit_and huge_entry 0x1F)

-- What a call that leaves a table does: besides the parent entry and the child's page no word
-- changes; a new table is empty, or has the parts of the page; nothing changes if the table was there; without a size nothing is
-- split.
pub record Ensured (v : Vmm) (parent child size : ℕ) (v' : Vmm) : Type 0 where
  pub table : Table v.pmm (v.words parent) (v'.words parent) v'.pmm
  pub rest : (q : ℕ) → parent ≢ q → Outside child 0 512 q → v'.words q ≡ v.words q
  pub empty : v.words parent % 2 ≡ 0 → (j : ℕ) → j < 512 → v'.words (child + 8 * j) ≡ 0
  pub same :
      v.words parent % 2 ≡ 1 → v.words parent / 2 ^ 7 % 2 ≡ 0 → (q : ℕ) → v'.words q ≡ v.words q
  pub parts :
      v.words parent % 2 ≡ 1
      → v.words parent / 2 ^ 7 % 2 ≡ 1
      → (j : ℕ) → j < 512
      → v'.words (child + 8 * j) ≡ part_of (v.words parent) j
  pub whole : size ≡ 0 → v.words parent % 2 ≡ 1 → v.words parent / 2 ^ 7 % 2 ≡ 0

written_inside :
    (n i j table : ℕ) (value : ℕ → ℕ) (m : Mem)
    → j < n
    → fill_words n i table value m (table + 8 * (i + j)) ≡ value (i + j)
unfolding fill_words
written_inside zero i j table value m h = absurd (omega (arith, h))
written_inside (suc n) i zero table value m h =
    fill_words-Outside n (i + 1) table value (poke m (table + 8 * i) (value i))
      (table + 8 * (i + 0)) (inl (omega arith))
    ∙ ap (λ (k : ℕ). poke m (table + 8 * i) (value i) (table + 8 * k)) {x = i + 0} {y = i}
        (omega arith)
    ∙ ground arith
    ∙ ap value {x = i} {y = i + 0} (omega arith)
written_inside (suc n) i (suc j) table value m h =
    ap
      (λ (q : ℕ).
        fill_words n (i + 1) table value (poke m (table + 8 * i) (value i)) (table + 8 * q))
      {x = i + suc j} {y = i + 1 + j} (omega arith)
    ∙ written_inside n (i + 1) j table value (poke m (table + 8 * i) (value i)) (omega (arith, h))
    ∙ ap value {x = i + 1 + j} {y = i + suc j} (omega arith)

-- From the first entry on.
fill_words-inside :
    (n j table : ℕ) (value : ℕ → ℕ) (m : Mem)
    → j < n
    → fill_words n 0 table value m (table + 8 * j) ≡ value j
fill_words-inside n j table value m h =
    ap (λ (q : ℕ). fill_words n 0 table value m (table + 8 * q)) {x = j} {y = 0 + j} (omega arith)
    ∙ written_inside n 0 j table value m h
    ∙ ap value {x = 0 + j} {y = j} (omega arith)

module _ (v : Vmm) (parent child : ℕ) where
  abbrev marked : Mem
  marked = poke v.words parent (table_entry (alloc_frame v.pmm).1)

  abbrev pub linked_state : Vmm
  linked_state = record { words = zero_page child marked; pmm = (alloc_frame v.pmm).0 }

  pub link_had :
      ((alloc_frame v.pmm).1 == u64_max) ≡ false → link_new_table v parent child ≡ some linked_state
  unfolding link_new_table
  link_had e = rw (e, link_new_table) refl

  pub link_gone : ((alloc_frame v.pmm).1 == u64_max) ≡ true → link_new_table v parent child ≡ none
  unfolding link_new_table
  link_gone e = rw (e, link_new_table) refl

  link_words : (q : ℕ) → Outside child 0 512 q → linked_state.words q ≡ marked q
  unfolding zero_page
  link_words q o = fill_words-Outside 512 0 child (λ i. 0) marked q o

  pub link_entry :
      Outside child 0 512 parent → linked_state.words parent ≡ table_entry (alloc_frame v.pmm).1
  link_entry o = link_words parent o ∙ ground arith

  pub link_rest : (q : ℕ) → parent ≢ q → Outside child 0 512 q → linked_state.words q ≡ v.words q
  link_rest q ne o =
      link_words q o ∙ poke-other v.words parent (table_entry (alloc_frame v.pmm).1) q ne

  pub link_zeros : (j : ℕ) → j < 512 → linked_state.words (child + 8 * j) ≡ 0
  unfolding zero_page
  link_zeros j h = fill_words-inside 512 j child (λ i. 0) marked h

  -- A page of 2 MiB, in 512 pages.
  abbrev pub split_state : Vmm
  split_state = record {
    words = fill_words 512 0 child (part_of (v.words parent)) linked_state.words;
    pmm = linked_state.pmm;
  }

  pub split_had :
      link_new_table v parent child ≡ some linked_state
      → split_huge_page v parent child (512 * 4096) ≡ some split_state
  unfolding split_huge_page
  split_had e = rw (e, split_huge_page) refl

  pub split_gone :
      link_new_table v parent child ≡ none → split_huge_page v parent child (512 * 4096) ≡ none
  unfolding split_huge_page
  split_gone e = rw (e, split_huge_page) refl

  pub split_words : (q : ℕ) → Outside child 0 512 q → split_state.words q ≡ linked_state.words q
  split_words q o = fill_words-Outside 512 0 child _ linked_state.words q o

  pub split_parts :
      (j : ℕ) → j < 512 → split_state.words (child + 8 * j) ≡ part_of (v.words parent) j
  split_parts j h = fill_words-inside 512 j child (part_of (v.words parent)) linked_state.words h
