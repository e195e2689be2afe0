-- ===== src/Vmm/Places.antt =====
-- Where the windows of src/mm/vmm.cpp and their entries stand.
use weng_shi_os.Base.{ℕ, ◌+◌, ◌*◌, ◌<◌, ◌≡◌, ◌≢◌, inl, inr, arith, sym, ◌∙◌, Bool-cases, ltb}
use weng_shi_os.Vmm.{
  pml4_virt, pdpt_virt, pd_virt, pt_virt, window, index4, index3, index2, index1, entry4, entry3,
  entry2, entry1,
}
use weng_shi_os.Vmm.Window.{window_sum, window-eq}
use weng_shi_os.Vmm.Fill.{Outside}

-- The tables stand page by page.
abbrev pub place : ℕ → ℕ → ℕ → ℕ
place b c d = (b * 512 + c) * 512 + d

window-place :
    (b c d : ℕ)
    → b < 512
    → c < 512
    → d < 512
    → window 510 b c d ≡ window_sum 0 0 0 + 4096 * place b c d
window-place b c d hb hc hd = window-eq b c d hb hc hd ∙ omega arith

pub page_apart :
    (k t t' p p' i : ℕ)
    → t ≡ k + 4096 * p
    → t' ≡ k + 4096 * p'
    → p ≢ p'
    → i < 512
    → Outside t 0 512 (t' + 8 * i)
page_apart k t t' p p' i e e' ne h = elim (Bool-cases (ltb p p')) [
  | inl l ↦ inr (ground (arith, e, e', h, l))
  | inr l ↦ inl (ground (arith, e, e', h, l, ne))
]

pub entries_differ :
    (k t t' p p' i j : ℕ)
    → t ≡ k + 4096 * p
    → t' ≡ k + 4096 * p'
    → p ≢ p'
    → i < 512
    → j < 512
    → t + 8 * i ≢ t' + 8 * j
entries_differ k t t' p p' i j e e' ne h h' = λ z. ne (omega (arith, e, e', h, h', z))

-- Four indices, of which the first is not the recursive one.
pub record Way (a b c d : ℕ) : Type 0 where
  pub in4 : a < 512
  pub in3 : b < 512
  pub in2 : c < 512
  pub in1 : d < 512
  pub other : a ≢ 510

module _ (a b c d : ℕ) (w : Way a b c d) where
  pub at4 : pml4_virt ≡ window_sum 0 0 0 + 4096 * place 510 510 510
  at4 = window-place 510 510 510 (omega arith) (omega arith) (omega arith)

  pub at3 : pdpt_virt a ≡ window_sum 0 0 0 + 4096 * place 510 510 a
  at3 = window-place 510 510 a (omega arith) (omega arith) w.in4

  pub at2 : pd_virt a b ≡ window_sum 0 0 0 + 4096 * place 510 a b
  at2 = window-place 510 a b (omega arith) w.in4 w.in3

  pub at1 : pt_virt a b c ≡ window_sum 0 0 0 + 4096 * place a b c
  at1 = window-place a b c w.in4 w.in3 w.in2

  pub ne43 : place 510 510 510 ≢ place 510 510 a
  ne43 = λ z. w.other (omega (arith, z))

  pub ne42 : place 510 510 510 ≢ place 510 a b
  ne42 = λ z. w.other (omega (arith, z, w.in3))

  pub ne41 : place 510 510 510 ≢ place a b c
  ne41 = λ z. w.other (omega (arith, z, w.in3, w.in2))

  pub ne32 : place 510 510 a ≢ place 510 a b
  ne32 = λ z. w.other (omega (arith, z, w.in3, w.in4))

  pub ne31 : place 510 510 a ≢ place a b c
  ne31 = λ z. w.other (omega (arith, z, w.in3, w.in4, w.in2))

  pub ne21 : place 510 a b ≢ place a b c
  ne21 = λ z. w.other (omega (arith, z, w.in3, w.in4, w.in2))

pub Outside-differs : (t i q : ℕ) → Outside t 0 512 q → i < 512 → t + 8 * i ≢ q
Outside-differs t i q (inl l) h = λ e. omega (arith, l, e)
Outside-differs t i q (inr l) h = λ e. omega (arith, l, h, e)

abbrev pub WayTo : ℕ → Type 0
WayTo va = Way (index4 va) (index3 va) (index2 va) (index1 va)

pub page_way : (va : ℕ) → index4 va ≢ 510 → WayTo va
page_way va h = record {
  in4 = omega arith;
  in3 = omega arith;
  in2 = omega arith;
  in1 = omega arith;
  other = h;
}

-- The entries on the way to an address stand outside the tables below them.
module _ (va : ℕ) (w : WayTo va) where
  abbrev a : ℕ
  a = index4 va

  abbrev b : ℕ
  b = index3 va

  abbrev c : ℕ
  c = index2 va

  abbrev d : ℕ
  d = index1 va

  abbrev base : ℕ
  base = window_sum 0 0 0

  pub out3_4 : Outside (pdpt_virt a) 0 512 (entry4 va)
  out3_4 =
      page_apart base _ _ _ _ a (at3 a b c d w) (at4 a b c d w) (λ z. ne43 a b c d w (sym z)) w.in4

  pub out2_4 : Outside (pd_virt a b) 0 512 (entry4 va)
  out2_4 =
      page_apart base _ _ _ _ a (at2 a b c d w) (at4 a b c d w) (λ z. ne42 a b c d w (sym z)) w.in4

  pub out1_4 : Outside (pt_virt a b c) 0 512 (entry4 va)
  out1_4 =
      page_apart base _ _ _ _ a (at1 a b c d w) (at4 a b c d w) (λ z. ne41 a b c d w (sym z)) w.in4

  pub out2_3 : Outside (pd_virt a b) 0 512 (entry3 va)
  out2_3 =
      page_apart base _ _ _ _ b (at2 a b c d w) (at3 a b c d w) (λ z. ne32 a b c d w (sym z)) w.in3

  pub out1_3 : Outside (pt_virt a b c) 0 512 (entry3 va)
  out1_3 =
      page_apart base _ _ _ _ b (at1 a b c d w) (at3 a b c d w) (λ z. ne31 a b c d w (sym z)) w.in3

  pub out1_2 : Outside (pt_virt a b c) 0 512 (entry2 va)
  out1_2 =
      page_apart base _ _ _ _ c (at1 a b c d w) (at2 a b c d w) (λ z. ne21 a b c d w (sym z)) w.in2

  pub out3_2 : Outside (pdpt_virt a) 0 512 (entry2 va)
  out3_2 = page_apart base _ _ _ _ c (at3 a b c d w) (at2 a b c d w) (ne32 a b c d w) w.in2

  pub differ43 : entry4 va ≢ entry3 va
  differ43 =
      entries_differ base _ _ _ _ a b (at4 a b c d w) (at3 a b c d w) (ne43 a b c d w) w.in4 w.in3

  pub differ42 : entry4 va ≢ entry2 va
  differ42 =
      entries_differ base _ _ _ _ a c (at4 a b c d w) (at2 a b c d w) (ne42 a b c d w) w.in4 w.in2

  pub differ41 : entry4 va ≢ entry1 va
  differ41 =
      entries_differ base _ _ _ _ a d (at4 a b c d w) (at1 a b c d w) (ne41 a b c d w) w.in4 w.in1

  pub differ32 : entry3 va ≢ entry2 va
  differ32 =
      entries_differ base _ _ _ _ b c (at3 a b c d w) (at2 a b c d w) (ne32 a b c d w) w.in3 w.in2

  pub differ31 : entry3 va ≢ entry1 va
  differ31 =
      entries_differ base _ _ _ _ b d (at3 a b c d w) (at1 a b c d w) (ne31 a b c d w) w.in3 w.in1

  pub differ21 : entry2 va ≢ entry1 va
  differ21 =
      entries_differ base _ _ _ _ c d (at2 a b c d w) (at1 a b c d w) (ne21 a b c d w) w.in2 w.in1

  -- So do the entries of the last table and those above it.
  module _ (j : ℕ) (h : j < 512) where
    pub leaf_out2 : Outside (pd_virt a b) 0 512 (pt_virt a b c + 8 * j)
    leaf_out2 = page_apart base _ _ _ _ j (at2 a b c d w) (at1 a b c d w) (ne21 a b c d w) h

    pub leaf_out3 : Outside (pdpt_virt a) 0 512 (pt_virt a b c + 8 * j)
    leaf_out3 = page_apart base _ _ _ _ j (at3 a b c d w) (at1 a b c d w) (ne31 a b c d w) h

    pub leaf_differs3 : entry3 va ≢ pt_virt a b c + 8 * j
    leaf_differs3 =
        entries_differ base _ _ _ _ b j (at3 a b c d w) (at1 a b c d w) (ne31 a b c d w) w.in3 h

    pub leaf_differs4 : entry4 va ≢ pt_virt a b c + 8 * j
    leaf_differs4 =
        entries_differ base _ _ _ _ a j (at4 a b c d w) (at1 a b c d w) (ne41 a b c d w) w.in4 h
