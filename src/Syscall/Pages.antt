-- ===== src/Syscall/Pages.antt =====
-- The loop over the pages in `sysBrk` of src/kernel/syscall.cpp.
use weng_shi_os.Base.{
  ℕ, zero, suc, ◌+◌, ◌-◌, ◌*◌, ◌/◌, ◌%◌, ◌^◌, ◌≤◌, ◌<◌, ◌≡◌, Bool, true, false, arith, refl, sym,
  ap, subst, ◌∙◌, Bool-cases, inl, inr,
}
use weng_shi_os.Scheduler.Task.{Task}
use weng_shi_os.Syscall.{page_size, map_pages}

abbrev pub page_of : ℕ → ℕ
page_of a = a / page_size * page_size

-- A page that was mapped stays mapped, and one that is answered is mapped.
pub record Maps {W : Type 0} (alloc : W → ℕ → W × Bool) (IsMapped : W → ℕ → Type 0) : Type 0 where
  pub stays : (w : W) (a p : ℕ) → IsMapped w p → IsMapped (alloc w a).0 p
  pub here : (w : W) (a : ℕ) → (alloc w a).1 ≡ true → IsMapped (alloc w a).0 a

-- The break is not below its start, which is the start of a page, and all between is mapped.
pub record IsCovered {W : Type 0} (IsMapped : W → ℕ → Type 0) (w : W) (t : Task) : Type 0 where
  pub aligned : t.brk_start % page_size ≡ 0
  pub above : t.brk_start ≤ t.brk_current
  pub small : t.brk_current ≤ 2 ^ 64 - page_size
  pub mapped : (a : ℕ) → t.brk_start ≤ a → a < t.brk_current → IsMapped w (page_of a)

-- The pages from an address on are had one after the other, from a state to a state.
pub data AllHad {W : Type 0} (alloc : W → ℕ → W × Bool) : ℕ → W → ℕ → W → Type 0 where
  last : {w : W} {addr : ℕ} → AllHad alloc 0 w addr w
  page :
      {n : ℕ} {w v : W} {addr : ℕ}
      → (alloc w addr).1 ≡ true
      → AllHad alloc n (alloc w addr).0 (addr + page_size) v
      → AllHad alloc (suc n) w addr v

-- How the loop over `n` pages ends: with all of them, or at the first that fails.
pub data Growth {W : Type 0} (alloc : W → ℕ → W × Bool) (n : ℕ) (w : W) (addr : ℕ) (r : W × Bool)
    : Type 0 where
  whole : AllHad alloc n w addr r.0 → r.1 ≡ true → Growth alloc n w addr r
  cut :
      (k : ℕ) (v : W)
      → k < n
      → AllHad alloc k w addr v
      → alloc v (addr + k * page_size) ≡ (r.0, false)
      → r.1 ≡ false
      → Growth alloc n w addr r

shift_zero :
    {W : Type 0} (alloc : W → ℕ → W × Bool) (w : W) (addr : ℕ)
    → (alloc w addr).1 ≡ false
    → alloc w (addr + 0 * page_size) ≡ ((alloc w addr).0, false)
shift_zero alloc w addr e =
    ap (alloc w) {x = addr + 0 * page_size} {y = addr} (omega arith)
    ∙ ap (λ (b : Bool). ((alloc w addr).0, b)) e

later_page :
    {W : Type 0} (alloc : W → ℕ → W × Bool) (n : ℕ) (w : W) (addr : ℕ) (r : W × Bool)
    → (alloc w addr).1 ≡ true
    → Growth alloc n (alloc w addr).0 (addr + page_size) r
    → Growth alloc (suc n) w addr r
later_page alloc n w addr r e (whole all ok) = whole (page e all) ok
later_page alloc n w addr r e (cut k v lt all fails gone) =
    cut (suc k) v (omega (arith, lt)) (page e all)
      (ap (alloc v) {x = addr + suc k * page_size} {y = addr + page_size + k * page_size}
          (omega arith)
        ∙ fails)
      gone

module _ {W : Type 0} (alloc : W → ℕ → W × Bool) (IsMapped : W → ℕ → Type 0)
    (m : Maps alloc IsMapped) where
  pub map_pages-stays :
      (n : ℕ) (w : W) (addr p : ℕ) → IsMapped w p → IsMapped (map_pages alloc n w addr).0 p
  unfolding map_pages
  map_pages-stays zero w addr p h = h
  map_pages-stays (suc n) w addr p h =
      either (alloc w addr).1 (map_pages alloc n (alloc w addr).0 (addr + page_size))
        ((alloc w addr).0, false)
        (map_pages-stays n (alloc w addr).0 (addr + page_size) p (m.stays w addr p h))
        (m.stays w addr p h)
    where
      either :
          (c : Bool) (x y : W × Bool)
          → IsMapped x.0 p
          → IsMapped y.0 p
          → IsMapped (elim c as (λ _. W × Bool) [ true ↦ x | false ↦ y ]).0 p
      either true x y a b = a
      either false x y a b = b

  pub map_pages_next :
      (n : ℕ) (w : W) (addr : ℕ)
      → (map_pages alloc (suc n) w addr).1 ≡ true
      → ((alloc w addr).1 ≡ true)
        × (map_pages alloc (suc n) w addr ≡ map_pages alloc n (alloc w addr).0 (addr + page_size))
  unfolding map_pages
  map_pages_next n w addr ok = elim (Bool-cases (alloc w addr).1) [
    | inl e ↦ (e, ground (arith, e))
    | inr e ↦ absurd (ground (arith, e, ok))
  ]

  pub map_pages-here :
      (n : ℕ) (w : W) (addr k : ℕ)
      → k < n
      → (map_pages alloc n w addr).1 ≡ true
      → IsMapped (map_pages alloc n w addr).0 (addr + k * page_size)
  map_pages-here zero w addr k h ok = absurd (omega (arith, h))
  map_pages-here (suc n) w addr zero h ok =
      let (first, rest) = map_pages_next n w addr ok in
      subst (λ (r : W × Bool). IsMapped r.0 (addr + 0 * page_size)) (sym rest)
        (map_pages-stays n (alloc w addr).0 (addr + page_size) (addr + 0 * page_size)
          (subst (IsMapped (alloc w addr).0) {x = addr} (omega arith) (m.here w addr first)))
  map_pages-here (suc n) w addr (suc k) h ok =
      let (first, rest) = map_pages_next n w addr ok in
      subst (λ (r : W × Bool). IsMapped r.0 (addr + suc k * page_size)) (sym rest)
        (subst (IsMapped (map_pages alloc n (alloc w addr).0 (addr + page_size)).0)
          {x = addr + page_size + k * page_size} (omega arith)
          (map_pages-here n (alloc w addr).0 (addr + page_size) k (omega (arith, h))
            (ap (λ (r : W × Bool). r.1) (sym rest) ∙ ok)))

  pub map_pages-Growth :
      (n : ℕ) (w : W) (addr : ℕ) → Growth alloc n w addr (map_pages alloc n w addr)
  unfolding map_pages
  map_pages-Growth zero w addr = whole last refl
  map_pages-Growth (suc n) w addr = elim (Bool-cases (alloc w addr).1) [
    | inl e ↦
        rw (e, map_pages)
          (later_page alloc n w addr (map_pages alloc n (alloc w addr).0 (addr + page_size)) e
            (map_pages-Growth n (alloc w addr).0 (addr + page_size)))
    | inr e ↦ rw (e, map_pages) (cut 0 w (omega arith) last (shift_zero alloc w addr e) refl)
  ]
