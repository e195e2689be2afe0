-- ===== src/Vmm/Unmapped.antt =====
-- `unmapPage` of src/mm/vmm.cpp behind `mapPage`.
use Prim.Native.Nat.{bit_or}
use weng_shi_os.Base.{ℕ, ◌/◌, ◌%◌, ◌^◌, ◌≡◌, ◌≢◌, some, arith, ap, subst, ◌∙◌}
use weng_shi_os.Base.Mem.{poke}
use weng_shi_os.Vmm.{Vmm, index4, entry4, entry3, entry2, entry1, page_of, map_page, unmap_page}
use weng_shi_os.Vmm.Places.{page_way, Outside-differs}
use weng_shi_os.Vmm.Fill.{poke-other, Table-present}
use weng_shi_os.Vmm.Walk.{Away, Mapped, mapped, huge_top, no_third, no_second, no_last}
use weng_shi_os.Vmm.Mapped.{map_page-Mapped}

unmap_there :
    (v : Vmm) (va : ℕ)
    → v.words (entry4 (page_of va)) % 2 ≡ 1
    → v.words (entry3 (page_of va)) % 2 ≡ 1
    → v.words (entry2 (page_of va)) % 2 ≡ 1
    → unmap_page v va ≡ record v { words = poke v.words (entry1 (page_of va)) 0 }
unfolding unmap_page
unmap_there v va p4 p3 p2 = ground (arith, p4, p3, p2)

-- A page that was mapped and unmapped again: its entry held the page and is clear, no other word
-- differs from what the mapping left, none outside the tables on the way from what was there before,
-- and the frames of new tables stay taken.
pub record Cleared (v v' v'' : Vmm) (va entry : ℕ) : Type 0 where
  pub was_set : v'.words (entry1 va) ≡ entry
  pub clear : v''.words (entry1 va) ≡ 0
  pub others : (p : ℕ) → entry1 va ≢ p → v''.words p ≡ v'.words p
  pub outside : (p : ℕ) → Away va p → v''.words p ≡ v.words p
  pub frames : v''.pmm ≡ v'.pmm

cleared :
    (v v' : Vmm) (va entry : ℕ)
    → index4 (page_of va) ≢ 510
    → Mapped v (page_of va) entry (some v')
    → Cleared v v' (unmap_page v' va) (page_of va) entry
cleared v v' va entry ne (huge_top e p h) = absurd (ground (arith, e))
cleared v v' va entry ne (no_third e n f) = absurd (ground (arith, e))
cleared v v' va entry ne (no_second n4 pmm1 e t n f) = absurd (ground (arith, e))
cleared v v' va entry ne (no_last n4 n3 pmm1 pmm2 e t4 t3 n f) = absurd (ground (arith, e))
cleared v v' va entry ne (mapped u pmm1 pmm2 e t4 t3 t2 set leaves out) =
    let q = page_of va in
    let eq : u ≡ v' = ground (arith, e) in
    let gone : unmap_page u va ≡ record u { words = poke u.words (entry1 q) 0 } =
      unmap_there u va (Table-present _ _ _ _ t4) (Table-present _ _ _ _ t3)
        (Table-present _ _ _ _ t2) in
    let other : (p : ℕ) → entry1 q ≢ p → (unmap_page u va).words p ≡ u.words p =
      λ p d. ap (λ (x : Vmm). x.words p) gone ∙ poke-other u.words (entry1 q) 0 p d in
    subst (λ (x : Vmm). Cleared v x (unmap_page x va) q entry) eq
      (record {
        was_set = set;
        clear = ap (λ (x : Vmm). x.words (entry1 q)) gone ∙ ground arith;
        others = other;
        outside = λ p o. other p (Outside-differs _ _ p o.3 (page_way q ne).in1) ∙ out p o;
        frames = ap (λ (x : Vmm). x.pmm) gone;
      })

-- For an address outside the recursive window, where no page of 1 GiB stands in the way: where
-- `mapPage` returns, it has written the entry of the page, and `unmapPage` of the same address then
-- finds every table on the way and clears that entry and no other word, so that outside the tables
-- on the way all is as before both calls; it gives no frame back.
pub unmap_page-map_page :
    (v v' : Vmm) (va pa flags : ℕ)
    → index4 (page_of va) ≢ 510
    → v.words (entry3 (page_of va)) / 2 ^ 7 % 2 ≡ 0
    → map_page v va pa flags ≡ some v'
    → Cleared v v' (unmap_page v' va) (page_of va) (bit_or (bit_or (page_of pa) flags) 1)
unmap_page-map_page v v' va pa flags ne small e =
    let entry = bit_or (bit_or (page_of pa) flags) 1 in
    cleared v v' va entry ne
      (subst (Mapped v (page_of va) entry) e (map_page-Mapped v va pa flags ne small))
