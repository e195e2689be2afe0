-- ===== src/Pmm/Bitmap.antt =====
-- The bitmap of src/mm/pmm.cpp as a set of frames, and the number of its members.
use Prim.Native.Nat.{bit_and, bit_or}
use native.Mathlib.Nat.{one-le-pow}
use weng_shi_os.Base.{
  ℕ, zero, suc, ◌+◌, ◌-◌, ◌*◌, ◌/◌, ◌%◌, ◌^◌, ◌≤◌, ◌<◌, ◌≡◌, refl, true, false, not, ◌==◌, ltb,
  List, length, set, get_or, length-set, get_or-set_self, get_or-set_ne, if◌then◌else◌, arith,
  ℕ_discrete,
}
use weng_shi_os.Base.Bits.{bit_at, bit_at-lt, bit_and-bit, bit_at-bit_or, bit_at-clear}
use weng_shi_os.Pmm.{set_bit, clear_bit, test_bit}

mul_pos_test : (b m : ℕ) → b < 2 → 1 ≤ m → not (b * m == 0) ≡ (b == 1)
mul_pos_test zero m h hm = ground arith
mul_pos_test (suc zero) m h hm = ground arith
mul_pos_test (suc (suc b)) m h hm = absurd (omega arith)

-- The test reads the bit of its byte.
pub test_bit-bit_at :
    (b : List ℕ) (f : ℕ) → test_bit b f ≡ (bit_at (get_or b (f / 8) 0) (f % 8) == 1)
unfolding test_bit
test_bit-bit_at b f =
    let x = get_or b (f / 8) 0 in
    rw (bit_and-bit (f % 8) x) (
      mul_pos_test (bit_at x (f % 8)) (2 ^ (f % 8)) (bit_at-lt x (f % 8))
        (one-le-pow (f % 8) 2 (omega arith)))

byte_write :
    (b : List ℕ) (f g v : ℕ)
    → f / 8 < length b
    → get_or (set b (f / 8) v) (g / 8) 0 ≡ (if f / 8 == g / 8 then v else get_or b (g / 8) 0)
byte_write b f g v h = elim (ℕ_discrete (f / 8) (g / 8)) [
  | yes e ↦ rw (← e) (ground (arith, get_or-set_self b (f / 8) v 0))
  | no ne ↦ ground (arith, get_or-set_ne b (f / 8) (g / 8) v 0 ne)
]

-- `setBit` puts one frame into the set.
pub test_bit-set_bit :
    (b : List ℕ) (f g : ℕ)
    → f / 8 < length b
    → test_bit (set_bit b f) g ≡ (if f == g then true else test_bit b g)
unfolding set_bit
test_bit-set_bit b f g h = ground (
  arith,
  test_bit-bit_at (set_bit b f) g,
  test_bit-bit_at b g,
  byte_write b f g (bit_or (get_or b (f / 8) 0) (2 ^ (f % 8))) h,
  bit_at-bit_or (f % 8) (g % 8) (get_or b (f / 8) 0),
)

-- `clearBit` takes one frame out of it.
pub test_bit-clear_bit :
    (b : List ℕ) (f g : ℕ)
    → f / 8 < length b
    → test_bit (clear_bit b f) g ≡ (if f == g then false else test_bit b g)
unfolding clear_bit
test_bit-clear_bit b f g h = ground (
  arith,
  test_bit-bit_at (clear_bit b f) g,
  test_bit-bit_at b g,
  byte_write b f g (bit_and (get_or b (f / 8) 0) (2 ^ 8 - 1 - 2 ^ (f % 8))) h,
  bit_at-clear 8 (f % 8) (g % 8) (get_or b (f / 8) 0),
)

pub length-set_bit : (b : List ℕ) (f : ℕ) → length (set_bit b f) ≡ length b
unfolding set_bit
length-set_bit b f = length-set b _ _

pub length-clear_bit : (b : List ℕ) (f : ℕ) → length (clear_bit b f) ≡ length b
unfolding clear_bit
length-clear_bit b f = length-set b _ _

-- How many of the first `n` frames are in use.
abbrev pub count_used : List ℕ → ℕ → ℕ
count_used b zero = 0
count_used b (suc n) = count_used b n + (if test_bit b n then 1 else 0)

pub count_used-le : (b : List ℕ) (n : ℕ) → count_used b n ≤ n
count_used-le b zero = omega arith
count_used-le b (suc n) = ground (arith, count_used-le b n)

pub count_used-set_bit :
    (b : List ℕ) (f n : ℕ)
    → f / 8 < length b
    → test_bit b f ≡ false
    → count_used (set_bit b f) n ≡ count_used b n + (if ltb f n then 1 else 0)
count_used-set_bit b f zero h free = ground arith
count_used-set_bit b f (suc n) h free =
    ground (arith, count_used-set_bit b f n h free, test_bit-set_bit b f n h)

pub count_used-clear_bit :
    (b : List ℕ) (f n : ℕ)
    → f / 8 < length b
    → test_bit b f ≡ true
    → count_used (clear_bit b f) n + (if ltb f n then 1 else 0) ≡ count_used b n
count_used-clear_bit b f zero h used = ground arith
count_used-clear_bit b f (suc n) h used =
    ground (arith, count_used-clear_bit b f n h used, test_bit-clear_bit b f n h)

pub count_used_ext :
    (b c : List ℕ) (n : ℕ)
    → ((g : ℕ) → test_bit b g ≡ test_bit c g)
    → count_used b n ≡ count_used c n
count_used_ext b c zero h = refl
count_used_ext b c (suc n) h = ground (arith, count_used_ext b c n h, h n)
