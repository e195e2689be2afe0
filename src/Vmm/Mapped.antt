-- ===== src/Vmm/Mapped.antt =====
-- `mapPage` of src/mm/vmm.cpp.
use Prim.Native.Nat.{bit_or}
use weng_shi_os.Base.{
  ◌+◌, ◌*◌, ◌<◌, Bool-cases, inl, inr, ℕ, ◌/◌, ◌%◌, ◌^◌, ◌≡◌, ◌≢◌, Option, none, some, arith, refl,
  sym, ap, subst, ◌∙◌,
}
use weng_shi_os.Base.Mem.{poke}
use weng_shi_os.Vmm.{
  Vmm, is_present, is_huge, pdpt_virt, pd_virt, pt_virt, ensure_table, huge_1gb, huge_2mb, index4,
  index3, index2, index1, entry4, entry3, entry2, entry1, page_of, map_page,
}
use weng_shi_os.Vmm.Places.{
  WayTo, page_way, Outside-differs, out3_4, out2_4, out1_4, out2_3, out1_3, out1_2, out3_2,
  leaf_out2, leaf_out3, leaf_differs3, leaf_differs4, differ43, differ42, differ41, differ32,
  differ31, differ21,
}
use weng_shi_os.Vmm.Fill.{poke-other, Needs, Table, Ensured}
use weng_shi_os.Vmm.Walk.{
  third_seen, second_seen, leaf_seen, Away, Mapped, mapped, huge_top, no_third, no_second, no_last,
}
use weng_shi_os.Vmm.Ensure.{
  seen, halted, exhausted, ensured, ensure_top-Outcome, ensure_whole-Outcome, ensure_small-Outcome,
  Ensured-seen,
}

module _ (v : Vmm) (va pa flags : ℕ) where
  abbrev q : ℕ
  q = page_of va

  abbrev entry : ℕ
  entry = bit_or (bit_or (page_of pa) flags) 1

  abbrev leaf : ℕ → ℕ
  leaf j = pt_virt (index4 q) (index3 q) (index2 q) + 8 * j

  abbrev top : Option Vmm
  top = ensure_table v (entry4 q) (pdpt_virt (index4 q)) 0

  abbrev third : Vmm → Option Vmm
  third v1 = ensure_table v1 (entry3 q) (pd_virt (index4 q) (index3 q)) huge_1gb

  abbrev second : Vmm → Option Vmm
  second v2 = ensure_table v2 (entry2 q) (pt_virt (index4 q) (index3 q) (index2 q)) huge_2mb

  map_none4 : top ≡ none → map_page v va pa flags ≡ none
  unfolding map_page
  map_none4 e = rw (e, map_page) refl

  map_none3 : (v1 : Vmm) → top ≡ some v1 → third v1 ≡ none → map_page v va pa flags ≡ none
  unfolding map_page
  map_none3 v1 e1 e2 = rw (e1, map_page) (rw (e2, map_page) refl)

  map_none2 :
      (v1 v2 : Vmm)
      → top ≡ some v1
      → third v1 ≡ some v2
      → second v2 ≡ none
      → map_page v va pa flags ≡ none
  unfolding map_page
  map_none2 v1 v2 e1 e2 e3 = rw (e1, map_page) (rw (e2, map_page) (rw (e3, map_page) refl))

  map_returns :
      (v1 v2 v3 : Vmm)
      → top ≡ some v1
      → third v1 ≡ some v2
      → second v2 ≡ some v3
      → map_page v va pa flags ≡ some (record v3 { words = poke v3.words (entry1 q) entry })
  unfolding map_page
  map_returns v1 v2 v3 e1 e2 e3 = rw (e1, map_page) (rw (e2, map_page) (rw (e3, map_page) refl))

  module _ (w : WayTo q) (small : v.words (entry3 q) / 2 ^ 7 % 2 ≡ 0) where
    third_small : third_seen v q / 2 ^ 7 % 2 ≡ 0
    third_small = ground (arith, small)

    module _ (v1 : Vmm) (e1 : top ≡ some v1)
        (n1 : Ensured v (entry4 q) (pdpt_virt (index4 q)) 0 v1) where
      seen3 : v1.words (entry3 q) ≡ third_seen v q
      seen3 = Ensured-seen v _ _ v1 0 (index3 q) n1 (n1.whole refl) w.in3

      kept2 : v1.words (entry2 q) ≡ v.words (entry2 q)
      kept2 = n1.rest (entry2 q) (differ42 q w) (out3_2 q w)

      module _ (v2 : Vmm) (e2 : third v1 ≡ some v2)
          (n2 : Ensured v1 (entry3 q) (pd_virt (index4 q) (index3 q)) huge_1gb v2) where
        seen2 : v2.words (entry2 q) ≡ second_seen v q
        seen2 =
            Ensured-seen v1 _ _ v2 huge_1gb (index2 q) n2
              (λ p. subst (λ (n : ℕ). n / 2 ^ 7 % 2 ≡ 0) (sym seen3) third_small) w.in2
            ∙ ap (λ (n : ℕ). seen n (v1.words (entry2 q))) seen3
            ∙ ap (seen (third_seen v q)) kept2

        table3 : Table v1.pmm (third_seen v q) (v2.words (entry3 q)) v2.pmm
        table3 = subst (λ (n : ℕ). Table v1.pmm n (v2.words (entry3 q)) v2.pmm) seen3 n2.table

        module _ (v3 : Vmm) (e3 : second v2 ≡ some v3)
            (n3 : Ensured v2
              (entry2 q)
              (pt_virt (index4 q) (index3 q) (index2 q))
              huge_2mb
              v3) where
          abbrev last : Vmm
          last = record v3 { words = poke v3.words (entry1 q) entry }

          last4 : v1.words (entry4 q) ≡ last.words (entry4 q)
          last4 = sym (
              poke-other v3.words (entry1 q) entry (entry4 q) (λ z. differ41 q w (sym z))
              ∙ n3.rest (entry4 q) (λ z. differ42 q w (sym z)) (out1_4 q w)
              ∙ n2.rest (entry4 q) (λ z. differ43 q w (sym z)) (out2_4 q w))

          last3 : v2.words (entry3 q) ≡ last.words (entry3 q)
          last3 = sym (
              poke-other v3.words (entry1 q) entry (entry3 q) (λ z. differ31 q w (sym z))
              ∙ n3.rest (entry3 q) (λ z. differ32 q w (sym z)) (out1_3 q w))

          last2 : v3.words (entry2 q) ≡ last.words (entry2 q)
          last2 = sym (poke-other v3.words (entry1 q) entry (entry2 q) (λ z. differ21 q w (sym z)))

          elsewhere : (p : ℕ) → Away q p → last.words p ≡ v.words p
          elsewhere p o =
              poke-other v3.words (entry1 q) entry p (Outside-differs _ (index1 q) p o.3 w.in1)
              ∙ n3.rest p (Outside-differs _ (index2 q) p o.2 w.in2) o.3
              ∙ n2.rest p (Outside-differs _ (index3 q) p o.1 w.in3) o.2
              ∙ n1.rest p o.0 o.1

          -- What the last call leaves in the table.
          leaf_left : (j : ℕ) → j < 512 → v3.words (leaf j) ≡ leaf_seen v q j
          leaf_left j h = elim (Bool-cases (is_present (v2.words (entry2 q)))) [
            | inr e ↦
                n3.empty (ground (arith, e)) j h
                ∙ (rw (sym seen2, leaf_seen) (rw (e, leaf_seen) refl))
            | inl e ↦ elim (Bool-cases (is_huge (v2.words (entry2 q)))) [
              | inl u ↦
                  n3.parts (ground (arith, e)) (ground (arith, u)) j h
                  ∙ (rw (sym seen2, leaf_seen) (rw (e, leaf_seen) (rw (u, leaf_seen) refl)))
              | inr u ↦
                  n3.same (ground (arith, e)) (ground (arith, u)) (leaf j)
                  ∙ n2.rest (leaf j) (leaf_differs3 q w j h) (leaf_out2 q w j h)
                  ∙ n1.rest (leaf j) (leaf_differs4 q w j h) (leaf_out3 q w j h)
                  ∙ (rw (sym seen2, leaf_seen) (rw (e, leaf_seen) (rw (u, leaf_seen) refl)))
            ]
          ]

          leaf_last : (j : ℕ) → j < 512 → j ≢ index1 q → last.words (leaf j) ≡ leaf_seen v q j
          leaf_last j h ne =
              poke-other v3.words (entry1 q) entry (leaf j) (λ z. ne (omega (arith, z)))
              ∙ leaf_left j h

          all_there : Mapped v q entry (map_page v va pa flags)
          all_there =
              mapped last v1.pmm v2.pmm (map_returns v1 v2 v3 e1 e2 e3)
                (subst (λ (n : ℕ). Table v.pmm (v.words (entry4 q)) n v1.pmm) last4 n1.table)
                (subst (λ (n : ℕ). Table v1.pmm (third_seen v q) n v2.pmm) last3 table3)
                (subst (λ (n : ℕ). Table v2.pmm n (last.words (entry2 q)) v3.pmm) seen2
                  (subst (λ (n : ℕ). Table v2.pmm (v2.words (entry2 q)) n v3.pmm) last2 n3.table))
                (ground arith) leaf_last elsewhere

        from_second : Mapped v q entry (map_page v va pa flags)
        from_second =
            elim (ensure_small-Outcome v2 (entry2 q) (pt_virt (index4 q) (index3 q) (index2 q))
              (out1_2 q w)) [
                | halted e z p h ↦ absurd (omega (arith, z))
                | exhausted e n f ↦
                    no_last _ _ v1.pmm v2.pmm (map_none2 v1 v2 e1 e2 e) n1.table table3
                      (subst Needs seen2 n) f
                | ensured v3 e3 n3 ↦ all_there v3 e3 n3
              ]

      from_third : Mapped v q entry (map_page v va pa flags)
      from_third =
          elim (ensure_whole-Outcome v1 (entry3 q) (pd_virt (index4 q) (index3 q)) huge_1gb
            (subst (λ (n : ℕ). n / 2 ^ 7 % 2 ≡ 0) (sym seen3) third_small) (out2_3 q w)) [
              | halted e z p h ↦ absurd (omega (arith, z))
              | exhausted e n f ↦
                  no_second _ v1.pmm (map_none3 v1 e1 e) n1.table (subst Needs seen3 n) f
              | ensured v2 e2 n2 ↦ from_second v2 e2 n2
            ]

  -- `mapPage` of an address outside the recursive window, where no page of 1 GiB stands in the way,
  -- returns with the entry of the page set to the physical page, the flags and the present bit.
  -- Each of the three tables on the way is then the one that was there, or, where none was or a
  -- page of 2 MiB stood, a new one in the frame that `allocFrame` gave, in the order from the top;
  -- the other entries of the last table are those that were there, or the parts of that page of 2
  -- MiB with its flags, or zeros; no word changes but the entry of the top table and those in the
  -- three tables. It does not return only where the entry of the top table is huge, or a table is
  -- needed and `allocFrame` has no frame after those it gave for the tables above.
  pub map_page-Mapped :
      index4 q ≢ 510
      → v.words (entry3 q) / 2 ^ 7 % 2 ≡ 0
      → Mapped v q entry (map_page v va pa flags)
  map_page-Mapped ne small =
      let w = page_way q ne in
      elim (ensure_top-Outcome v (entry4 q) (pdpt_virt (index4 q)) (out3_4 q w)) [
        | halted e z p h ↦ huge_top (map_none4 e) p h
        | exhausted e n f ↦ no_third (map_none4 e) n f
        | ensured v1 e1 n1 ↦ from_third w small v1 e1 n1
      ]
