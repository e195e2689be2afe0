-- ===== src/Ext2/Search.antt =====
-- The search for a free bit in a bitmap of src/fs/ext2/ext2.cpp.
use weng_shi_os.Base.{
  ℕ, zero, suc, ◌+◌, ◌≤◌, ◌<◌, ◌≡◌, true, false, List, Option, none, some, arith, refl, subst, ◌∙◌,
  Bool-cases, inl, inr, ℕ_discrete,
}
use weng_shi_os.Pmm.{test_bit}
use weng_shi_os.Ext2.Alloc.{find_free}

-- The search for a free bit: none is free, or the first free one is found.
pub data Search (bitmap : List ℕ) (i n : ℕ) (r : Option ℕ) : Type 0 where
  all_used :
      ((k : ℕ) → i ≤ k → k < i + n → test_bit bitmap k ≡ true) → r ≡ none → Search bitmap i n r
  first_free :
      (f : ℕ)
      → i ≤ f
      → f < i + n
      → test_bit bitmap f ≡ false
      → ((k : ℕ) → i ≤ k → k < f → test_bit bitmap k ≡ true)
      → r ≡ some f
      → Search bitmap i n r

from :
    (bitmap : List ℕ) (i k : ℕ)
    → test_bit bitmap i ≡ true
    → i ≤ k
    → (i + 1 ≤ k → test_bit bitmap k ≡ true)
    → test_bit bitmap k ≡ true
from bitmap i k used h later = elim (ℕ_discrete i k) [
  | yes e ↦ subst (λ (n : ℕ). test_bit bitmap n ≡ true) e used
  | no ne ↦ later (omega arith)
]

find_free-used :
    (n i : ℕ) (bitmap : List ℕ)
    → test_bit bitmap i ≡ true
    → find_free (suc n) i bitmap ≡ find_free n (i + 1) bitmap
unfolding find_free
find_free-used n i bitmap e = ground (arith, e)

find_free-free :
    (n i : ℕ) (bitmap : List ℕ) → test_bit bitmap i ≡ false → find_free (suc n) i bitmap ≡ some i
unfolding find_free
find_free-free n i bitmap e = ground (arith, e)

pub find_free-Search : (n i : ℕ) (bitmap : List ℕ) → Search bitmap i n (find_free n i bitmap)
find_free-Search zero i bitmap = all_used (λ k a b. absurd (omega arith)) (unfold find_free in refl)
find_free-Search (suc n) i bitmap = elim (Bool-cases (test_bit bitmap i)) [
  | inr free ↦
      first_free i (omega arith) (omega arith) free (λ k a b. absurd (omega arith))
        (find_free-free n i bitmap free)
  | inl used ↦ one_more n i bitmap used (find_free-Search n (i + 1) bitmap)
]
  where
    one_more :
        (n i : ℕ) (bitmap : List ℕ)
        → test_bit bitmap i ≡ true
        → Search bitmap (i + 1) n (find_free n (i + 1) bitmap)
        → Search bitmap i (suc n) (find_free (suc n) i bitmap)
    one_more n i bitmap used (all_used all e) =
        all_used (λ k a b. from bitmap i k used a (λ c. all k c (omega arith)))
          (find_free-used n i bitmap used ∙ e)
    one_more n i bitmap used (first_free f lo hi free before e) =
        first_free f (omega arith) (omega arith) free
          (λ k a b. from bitmap i k used a (λ c. before k c b)) (find_free-used n i bitmap used ∙ e)
