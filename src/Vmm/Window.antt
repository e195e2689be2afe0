-- ===== src/Vmm/Window.antt =====
-- The windows on the page tables in src/mm/vmm.cpp.
use Prim.Native.Nat.{bit_or}
use weng_shi_os.Base.{ℕ, ◌+◌, ◌*◌, ◌^◌, ◌<◌, ◌≡◌, arith, ◌∙◌, ap}
use weng_shi_os.Base.Bits.{bit_at, bit_or-high, bit_or-low, bit_and-bit, bit_at-high}
use weng_shi_os.Vmm.{canonicalize, window}

-- The sum of the four indices.
abbrev pub window_sum : ℕ → ℕ → ℕ → ℕ
window_sum b c d = 0xFFFF000000000000 + (510 * 2 ^ 39 + b * 2 ^ 30 + c * 2 ^ 21 + d * 2 ^ 12)

canonical_sum : (x : ℕ) → x < 2 ^ 48 → bit_at x 47 ≡ 1 → canonicalize x ≡ 0xFFFF000000000000 + x
unfolding canonicalize
canonical_sum x h e =
    let high : bit_or x 0xFFFF000000000000 ≡ 0xFFFF000000000000 + x =
      bit_or-low 48 0xFFFF x h ∙ omega arith in
    ground (arith, high, bit_and-bit 47 x, e)

top_bit :
    (b c d : ℕ)
    → b < 512
    → c < 512
    → d < 512
    → bit_at (510 * 2 ^ 39 + b * 2 ^ 30 + c * 2 ^ 21 + d * 2 ^ 12) 47 ≡ 1
top_bit b c d hb hc hd =
    ap (λ (n : ℕ). bit_at n 47)
      {y = 1 * 2 ^ 47 + (254 * 2 ^ 39 + b * 2 ^ 30 + c * 2 ^ 21 + d * 2 ^ 12)} (omega arith)
    ∙ bit_at-high 47 1 (254 * 2 ^ 39 + b * 2 ^ 30 + c * 2 ^ 21 + d * 2 ^ 12)
        (omega (arith, hb, hc, hd))

pub window-eq : (b c d : ℕ) → b < 512 → c < 512 → d < 512 → window 510 b c d ≡ window_sum b c d
unfolding window
window-eq b c d hb hc hd =
    let one : bit_or (510 * 2 ^ 39) (b * 2 ^ 30) ≡ (510 * 512 + b) * 2 ^ 30 =
      bit_or-high 39 510 (b * 2 ^ 30) (omega (arith, hb)) ∙ omega arith in
    let two : bit_or ((510 * 512 + b) * 2 ^ 30) (c * 2 ^ 21)
        ≡ ((510 * 512 + b) * 512 + c) * 2 ^ 21 =
      bit_or-high 30 (510 * 512 + b) (c * 2 ^ 21) (omega (arith, hc)) ∙ omega arith in
    let three : bit_or (((510 * 512 + b) * 512 + c) * 2 ^ 21) (d * 2 ^ 12)
        ≡ 510 * 2 ^ 39 + b * 2 ^ 30 + c * 2 ^ 21 + d * 2 ^ 12 =
      bit_or-high 21 ((510 * 512 + b) * 512 + c) (d * 2 ^ 12) (omega (arith, hd)) ∙ omega arith in
    rw one
      (rw two (rw three (canonical_sum _ (omega (arith, hb, hc, hd)) (top_bit b c d hb hc hd))))
