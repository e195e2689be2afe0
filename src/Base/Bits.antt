-- ===== src/Base/Bits.antt =====
-- Single bits of a number: `x & (1 << k)`, `x | (1 << k)` and `x & ~(1 << k)` at variables.
use Prim.Native.Nat.{
  ℕ, zero, suc, ◌+◌, ◌-◌, ◌*◌, ◌/◌, ◌%◌, ◌^◌, ◌≤◌, ◌<◌, min, max, digits, bit_and, bit_or,
  bit_and-bitwise, bit_or-bitwise,
}
use mathlib.Core.Path.{◌≡◌, refl, ap, subst, ◌∙◌}
use native.Mathlib.Nat.{le_refl, pow-suc, one-le-pow}
use native.Mathlib.Omega.{arith}
use weng_shi_os.Base.Tests.{◌==◌, if◌then◌else◌}

-- The fuel of `digits` beyond the first number is not used.
module _ (z : ℕ → ℕ) (f : ℕ → ℕ → ℕ) where
  spare_fuel : (n a b : ℕ) → a ≤ n → digits z f (suc n) a b ≡ digits z f n a b
  spare_fuel zero zero b h = refl
  spare_fuel (suc n) zero b h = refl
  spare_fuel zero (suc a) b h = absurd (ground (arith, h))
  spare_fuel (suc n) (suc a) b h = rw (spare_fuel n (suc a / 2) (b / 2) (omega (arith, h))) refl

  enough_fuel : (d a b : ℕ) → digits z f (d + a) a b ≡ digits z f a a b
  enough_fuel zero a b = ap (λ (n : ℕ). digits z f n a b) (omega arith)
  enough_fuel (suc d) a b =
      ap (λ (n : ℕ). digits z f n a b) {y = suc (d + a)} (omega arith)
      ∙ spare_fuel (d + a) a b (omega arith)
      ∙ enough_fuel d a b

  half_fuel : (a b : ℕ) → digits z f a (suc a / 2) b ≡ digits z f (suc a / 2) (suc a / 2) b
  half_fuel a b =
      subst (λ (n : ℕ). digits z f n (suc a / 2) b ≡ digits z f (suc a / 2) (suc a / 2) b)
        (omega arith) (enough_fuel (a - suc a / 2) (suc a / 2) b)

-- The lowest binary digit and the rest.
pub bit_and_step : (x y : ℕ) → bit_and x y ≡ min (x % 2) (y % 2) + 2 * bit_and (x / 2) (y / 2)
bit_and_step zero y = simp bit_and-bitwise (omega arith)
bit_and_step (suc x) y = simp bit_and-bitwise (omega (arith, half_fuel (λ d. 0) min x (y / 2)))

pub bit_or_step : (x y : ℕ) → bit_or x y ≡ max (x % 2) (y % 2) + 2 * bit_or (x / 2) (y / 2)
bit_or_step zero y = simp bit_or-bitwise (omega arith)
bit_or_step (suc x) y = simp bit_or-bitwise (omega (arith, half_fuel (λ d. d) max x (y / 2)))

-- Bit `k` of `x`, counted from the lowest.
abbrev pub bit_at : ℕ → ℕ → ℕ
bit_at x zero = x % 2
bit_at x (suc k) = bit_at (x / 2) k

pub bit_at-lt : (x k : ℕ) → bit_at x k < 2
bit_at-lt x zero = omega arith
bit_at-lt x (suc k) = bit_at-lt (x / 2) k

-- Both operations with zero on the right, by halving.
zero_on_right : (n a : ℕ) → a ≤ n → (bit_and a 0 ≡ 0) × (bit_or a 0 ≡ a)
zero_on_right n zero h = (refl, refl)
zero_on_right zero (suc a) h = absurd (ground (arith, h))
zero_on_right (suc n) (suc a) h =
    let (no_bits, all_bits) = zero_on_right n (suc a / 2) (omega (arith, h)) in
    (omega (arith, no_bits, bit_and_step (suc a) 0), omega (arith, all_bits, bit_or_step (suc a) 0))

pub bit_or-zero : (a : ℕ) → bit_or a 0 ≡ a
bit_or-zero a = (zero_on_right a a (le_refl a)).1

pub bit_and-zero : (a : ℕ) → bit_and a 0 ≡ 0
bit_and-zero a = (zero_on_right a a (le_refl a)).0

-- `x & (1 << k)` is the bit at its place.
pub bit_and-bit : (k x : ℕ) → bit_and x (2 ^ k) ≡ bit_at x k * 2 ^ k
bit_and-bit zero x = omega (arith, bit_and_step x 1, bit_and-zero (x / 2))
bit_and-bit (suc k) x = ground (
  arith,
  bit_and_step x (2 ^ suc k),
  pow-suc 2 k,
  bit_and-bit k (x / 2),
  ap (λ (t : ℕ). bit_at (x / 2) k * t) (pow-suc 2 k),
)

-- `x | (1 << k)` sets bit `k` and no other.
pub bit_at-bit_or : (k j x : ℕ) → bit_at (bit_or x (2 ^ k)) j ≡ (if k == j then 1 else bit_at x j)
bit_at-bit_or zero zero x = omega (arith, bit_or_step x 1)
bit_at-bit_or zero (suc j) x = ground (arith, half)
  where
    half : bit_or x 1 / 2 ≡ x / 2
    half = omega (arith, bit_or_step x 1, bit_or-zero (x / 2))
bit_at-bit_or (suc k) zero x = ground (arith, bit_or_step x (2 ^ suc k), pow-suc 2 k)
bit_at-bit_or (suc k) (suc j) x = rw half (ground (arith, bit_at-bit_or k j (x / 2)))
  where
    half : bit_or x (2 ^ suc k) / 2 ≡ bit_or (x / 2) (2 ^ k)
    half = ground (arith, bit_or_step x (2 ^ suc k), pow-suc 2 k)

-- `x & (2 ^ w - 1)` keeps the `w` low bits.
bit_at-low : (w j x : ℕ) → j < w → bit_at (bit_and x (2 ^ w - 1)) j ≡ bit_at x j
bit_at-low zero j x h = absurd (omega arith)
bit_at-low (suc w) zero x h =
    omega (arith, bit_and_step x (2 ^ suc w - 1), pow-suc 2 w, one-le-pow w 2 (omega arith))
bit_at-low (suc w) (suc j) x h = rw half (bit_at-low w j (x / 2) (omega arith))
  where
    half : bit_and x (2 ^ suc w - 1) / 2 ≡ bit_and (x / 2) (2 ^ w - 1)
    half = ground (arith, bit_and_step x (2 ^ suc w - 1), pow-suc 2 w, one-le-pow w 2 (omega arith))

pow_mono : (k w : ℕ) → k < w → 2 ^ k < 2 ^ w
pow_mono k zero h = absurd (omega arith)
pow_mono zero (suc w) h = omega (arith, pow-suc 2 w, one-le-pow w 2 (omega arith))
pow_mono (suc k) (suc w) h = omega (arith, pow-suc 2 w, pow-suc 2 k, pow_mono k w (omega arith))

-- `x & ~(1 << k)` at width `w` clears bit `k` and no other.
pub bit_at-clear :
    (w k j x : ℕ)
    → k < w
    → j < w
    → bit_at (bit_and x (2 ^ w - 1 - 2 ^ k)) j ≡ (if k == j then 0 else bit_at x j)
bit_at-clear zero k j x hk hj = absurd (omega arith)
bit_at-clear (suc w) zero zero x hk hj =
    omega (arith, bit_and_step x (2 ^ suc w - 1 - 1), pow-suc 2 w, one-le-pow w 2 (omega arith))
bit_at-clear (suc w) zero (suc j) x hk hj = rw half (ground (arith, bit_at-low w j (x / 2)))
  where
    half : bit_and x (2 ^ suc w - 1 - 1) / 2 ≡ bit_and (x / 2) (2 ^ w - 1)
    half =
        ground
          (arith, bit_and_step x (2 ^ suc w - 1 - 1), pow-suc 2 w, one-le-pow w 2 (omega arith))
bit_at-clear (suc w) (suc k) zero x hk hj = ground (
  arith,
  bit_and_step x (2 ^ suc w - 1 - 2 ^ suc k),
  pow-suc 2 w,
  pow-suc 2 k,
  pow_mono k w (omega arith),
)
bit_at-clear (suc w) (suc k) (suc j) x hk hj = rw half (ground (arith, bit_at-clear w k j (x / 2)))
  where
    half : bit_and x (2 ^ suc w - 1 - 2 ^ suc k) / 2 ≡ bit_and (x / 2) (2 ^ w - 1 - 2 ^ k)
    half = ground (
      arith,
      bit_and_step x (2 ^ suc w - 1 - 2 ^ suc k),
      pow-suc 2 w,
      pow-suc 2 k,
      pow_mono k w (omega arith),
    )

-- `(x << k) | d` for a `d` of `k` bits is a sum.
pub bit_or-high : (k x d : ℕ) → d < 2 ^ k → bit_or (x * 2 ^ k) d ≡ x * 2 ^ k + d
bit_or-high zero x zero h = bit_or-zero (x * 1) ∙ omega arith
bit_or-high zero x (suc d) h = absurd (omega (arith, h))
bit_or-high (suc k) x d h =
    let twice : x * 2 ^ suc k ≡ x * 2 ^ k * 2 =
      omega (arith, ap (λ (t : ℕ). x * t) (pow-suc 2 k)) in
    let half : x * 2 ^ k * 2 / 2 ≡ x * 2 ^ k = omega arith in
    rw twice
      (ground (arith, bit_or_step (x * 2 ^ k * 2) d, half, bit_or-high k x (d / 2), pow-suc 2 k, h))

bit_or-zero_left : (n d : ℕ) → d ≤ n → bit_or 0 d ≡ d
bit_or-zero_left n zero h = refl
bit_or-zero_left zero (suc d) h = absurd (omega (arith, h))
bit_or-zero_left (suc n) (suc d) h =
    omega (arith, bit_or_step 0 (suc d), bit_or-zero_left n (suc d / 2) (omega (arith, h)))

pub bit_or-low : (k x d : ℕ) → d < 2 ^ k → bit_or d (x * 2 ^ k) ≡ x * 2 ^ k + d
bit_or-low zero x zero h = bit_or-zero_left (x * 1) (x * 1) (le_refl (x * 1)) ∙ omega arith
bit_or-low zero x (suc d) h = absurd (omega (arith, h))
bit_or-low (suc k) x d h =
    let twice : x * 2 ^ suc k ≡ x * 2 ^ k * 2 =
      omega (arith, ap (λ (t : ℕ). x * t) (pow-suc 2 k)) in
    let half : x * 2 ^ k * 2 / 2 ≡ x * 2 ^ k = omega arith in
    rw twice
      (ground (arith, bit_or_step d (x * 2 ^ k * 2), half, bit_or-low k x (d / 2), pow-suc 2 k, h))

-- `x & (2 ^ w - 1)` is `x` if it has no more bits.
pub bit_and-ones : (w x : ℕ) → x < 2 ^ w → bit_and x (2 ^ w - 1) ≡ x
bit_and-ones zero x h = bit_and-zero x ∙ omega (arith, h)
bit_and-ones (suc w) x h =
    let half : (2 ^ suc w - 1) / 2 ≡ 2 ^ w - 1 =
      omega (arith, pow-suc 2 w, one-le-pow w 2 (omega arith)) in
    let odd : (2 ^ suc w - 1) % 2 ≡ 1 = omega (arith, pow-suc 2 w, one-le-pow w 2 (omega arith)) in
    let rest : bit_and (x / 2) ((2 ^ suc w - 1) / 2) ≡ x / 2 =
      ap (bit_and (x / 2)) half ∙ bit_and-ones w (x / 2) (omega (arith, h, pow-suc 2 w)) in
    omega (arith, bit_and_step x (2 ^ suc w - 1), odd, rest)

pub bit_at-high : (k a r : ℕ) → r < 2 ^ k → bit_at (a * 2 ^ k + r) k ≡ a % 2
bit_at-high zero a r h = omega (arith, h)
bit_at-high (suc k) a r h =
    let twice : a * 2 ^ suc k ≡ a * 2 ^ k * 2 =
      omega (arith, ap (λ (t : ℕ). a * t) (pow-suc 2 k)) in
    let half : (a * 2 ^ suc k + r) / 2 ≡ a * 2 ^ k + r / 2 = omega (arith, twice) in
    ap (λ (n : ℕ). bit_at n k) half ∙ bit_at-high k a (r / 2) (omega (arith, h, pow-suc 2 k))
