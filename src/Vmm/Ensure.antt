-- ===== src/Vmm/Ensure.antt =====
-- `ensureTable` of src/mm/vmm.cpp.
use weng_shi_os.Base.{
  ℕ, ◌+◌, ◌*◌, ◌/◌, ◌%◌, ◌^◌, ◌<◌, ◌≡◌, ◌≢◌, inl, inr, Bool, true, false, ◌==◌, Option, none, some,
  if◌then◌else◌, arith, refl, ◌∙◌, Bool-cases,
}
use weng_shi_os.Base.Word.{u64_max}
use weng_shi_os.Pmm.{alloc_frame}
use weng_shi_os.Vmm.{Vmm, is_present, is_huge, link_new_table, split_huge_page, ensure_table}
use weng_shi_os.Vmm.Fill.{
  Outside, Needs, there, linked, Ensured, linked_state, link_had, link_gone, link_entry, link_rest,
  link_zeros, split_state, split_had, split_gone, split_words, split_parts,
}

-- How a call ends: it halts at a huge entry where none can be split; or a table is needed and there
-- is no frame; or it leaves a table.
pub data Outcome (v : Vmm) (parent child size : ℕ) (r : Option Vmm) : Type 0 where
  halted :
      r ≡ none
      → size ≡ 0
      → v.words parent % 2 ≡ 1
      → v.words parent / 2 ^ 7 % 2 ≡ 1
      → Outcome v parent child size r
  exhausted :
      r ≡ none
      → Needs (v.words parent)
      → (alloc_frame v.pmm).1 ≡ u64_max
      → Outcome v parent child size r
  ensured :
      (v' : Vmm) → r ≡ some v' → Ensured v parent child size v' → Outcome v parent child size r

-- The entry of a table as the way through its parent shows it: behind a parent that is not present
-- there is a new table, which is empty.
abbrev pub seen : ℕ → ℕ → ℕ
seen parent_entry child_entry = if is_present parent_entry then child_entry else 0

module _ (v : Vmm) (parent child : ℕ) where
  abbrev no_frame : Bool
  no_frame = (alloc_frame v.pmm).1 == u64_max

  ensure_new :
      (size : ℕ)
      → is_present (v.words parent) ≡ false
      → ensure_table v parent child size ≡ link_new_table v parent child
  unfolding ensure_table
  ensure_new size e = ground (arith, e)

  ensure_there :
      (size : ℕ)
      → is_present (v.words parent) ≡ true
      → is_huge (v.words parent) ≡ false
      → ensure_table v parent child size ≡ some v
  unfolding ensure_table
  ensure_there size e h = ground (arith, e, h)

  ensure_split :
      is_present (v.words parent) ≡ true
      → is_huge (v.words parent) ≡ true
      → ensure_table v parent child (512 * 4096) ≡ split_huge_page v parent child (512 * 4096)
  unfolding ensure_table
  ensure_split e h = ground (arith, e, h)

  ensure_halt :
      is_present (v.words parent) ≡ true
      → is_huge (v.words parent) ≡ true
      → ensure_table v parent child 0 ≡ none
  unfolding ensure_table
  ensure_halt e h = ground (arith, e, h)

  frame_given : no_frame ≡ false → (alloc_frame v.pmm).1 ≢ u64_max
  frame_given had z = absurd (ground (arith, had, z))

  new_Outcome :
      (size : ℕ)
      → is_present (v.words parent) ≡ false
      → Outside child 0 512 parent
      → Outcome v parent child size (ensure_table v parent child size)
  new_Outcome size e o = elim (Bool-cases no_frame) [
    | inl gone ↦
        exhausted (ensure_new size e ∙ link_gone v parent child gone) (inl (ground (arith, e)))
          (ground (arith, gone))
    | inr had ↦
        ensured (linked_state v parent child) (ensure_new size e ∙ link_had v parent child had)
          (record {
            table =
                linked (inl (ground (arith, e))) (frame_given had) (link_entry v parent child o)
                  refl;
            rest = link_rest v parent child;
            empty = λ z. link_zeros v parent child;
            same = λ p h. absurd (ground (arith, e, p));
            parts = λ p. absurd (ground (arith, e, p));
            whole = λ z p. absurd (ground (arith, e, p));
          })
  ]

  there_Outcome :
      (size : ℕ)
      → is_present (v.words parent) ≡ true
      → is_huge (v.words parent) ≡ false
      → Outcome v parent child size (ensure_table v parent child size)
  there_Outcome size e h = ensured v (ensure_there size e h) (record {
    table = there (ground (arith, e)) (ground (arith, h)) refl refl;
    rest = λ q ne o. refl;
    empty = λ z. absurd (ground (arith, e, z));
    same = λ p z q. refl;
    parts = λ p z. absurd (ground (arith, h, z));
    whole = λ z p. ground (arith, h);
  })

  split_Outcome :
      is_present (v.words parent) ≡ true
      → is_huge (v.words parent) ≡ true
      → Outside child 0 512 parent
      → Outcome v parent child (512 * 4096) (ensure_table v parent child (512 * 4096))
  split_Outcome e h o = elim (Bool-cases no_frame) [
    | inl gone ↦
        exhausted (ensure_split e h ∙ split_gone v parent child (link_gone v parent child gone))
          (inr (ground (arith, h))) (ground (arith, gone))
    | inr had ↦
        ensured (split_state v parent child)
          (ensure_split e h ∙ split_had v parent child (link_had v parent child had))
          (record {
            table =
                linked (inr (ground (arith, h))) (frame_given had)
                  (split_words v parent child parent o ∙ link_entry v parent child o) refl;
            rest = λ q ne out. split_words v parent child q out ∙ link_rest v parent child q ne out;
            empty = λ z. absurd (ground (arith, e, z));
            same = λ p z. absurd (ground (arith, h, z));
            parts = λ p z. split_parts v parent child;
            whole = λ z. absurd (omega (arith, z));
          })
  ]

  -- At the top, where no page can be split.
  pub ensure_top-Outcome :
      Outside child 0 512 parent → Outcome v parent child 0 (ensure_table v parent child 0)
  ensure_top-Outcome o = elim (Bool-cases (is_present (v.words parent))) [
    | inr e ↦ new_Outcome 0 e o
    | inl e ↦ elim (Bool-cases (is_huge (v.words parent))) [
      | inl h ↦ halted (ensure_halt e h) refl (ground (arith, e)) (ground (arith, h))
      | inr h ↦ there_Outcome 0 e h
    ]
  ]

  -- At the bottom, where a page of 2 MiB is split.
  pub ensure_small-Outcome :
      Outside child 0 512 parent
      → Outcome v parent child (512 * 4096) (ensure_table v parent child (512 * 4096))
  ensure_small-Outcome o = elim (Bool-cases (is_present (v.words parent))) [
    | inr e ↦ new_Outcome (512 * 4096) e o
    | inl e ↦ elim (Bool-cases (is_huge (v.words parent))) [
      | inl h ↦ split_Outcome e h o
      | inr h ↦ there_Outcome (512 * 4096) e h
    ]
  ]

  -- Between them, where the entry is not huge.
  pub ensure_whole-Outcome :
      (size : ℕ)
      → v.words parent / 2 ^ 7 % 2 ≡ 0
      → Outside child 0 512 parent
      → Outcome v parent child size (ensure_table v parent child size)
  ensure_whole-Outcome size z o = elim (Bool-cases (is_present (v.words parent))) [
    | inr e ↦ new_Outcome size e o
    | inl e ↦ there_Outcome size e (ground (arith, z))
  ]

  -- What is seen behind a table that was ensured.
  pub Ensured-seen :
      (v' : Vmm) (size j : ℕ)
      → Ensured v parent child size v'
      → (v.words parent % 2 ≡ 1 → v.words parent / 2 ^ 7 % 2 ≡ 0)
      → j < 512
      → v'.words (child + 8 * j) ≡ seen (v.words parent) (v.words (child + 8 * j))
  Ensured-seen v' size j n small h = elim (Bool-cases (is_present (v.words parent))) [
    | inr e ↦ n.empty (ground (arith, e)) j h ∙ ground (arith, e)
    | inl e ↦
        let p : v.words parent % 2 ≡ 1 = ground (arith, e) in
        n.same p (small p) (child + 8 * j) ∙ ground (arith, e)
  ]
