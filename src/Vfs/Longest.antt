-- ===== src/Vfs/Longest.antt =====
-- `resolvePath` of src/fs/vfs.cpp finds the longest mount point that a path goes through.
use weng_shi_os.Base.{
  ℕ, zero, suc, ◌+◌, ◌<◌, ◌≤◌, ◌≡◌, refl, true, ◌&&◌, ltb, List, [], ◌∷◌, length, take, drop,
  get_or, Option, none, some, arith, Bool-cases, inl, inr, ◌∙◌, ap,
}
use weng_shi_os.Base.Word.{sub64}
use weng_shi_os.Vfs.Types.{Mount, no_mount}
use weng_shi_os.Vfs.Paths.{matches, best_mount, skip_slash, resolve_path}

abbrev pub nth : List Mount → ℕ → Mount
nth ms i = get_or ms i no_mount

abbrev pub point_length : List Mount → ℕ → ℕ
point_length ms i = length (nth ms i).mount_point

-- What the loop finds in the mounts that are left, given a best length so far.
data Best (path : List ℕ) (ms : List Mount) (i : ℕ) (best : Option ℕ) (bl : ℕ) (r : Option ℕ × ℕ)
    : Type 0 where
  kept :
      ((k : ℕ) → k < length ms → matches path (nth ms k) ≡ true → point_length ms k ≤ bl)
      → r ≡ (best, bl)
      → Best path ms i best bl r
  longer :
      (j : ℕ)
      → j < length ms
      → matches path (nth ms j) ≡ true
      → bl < point_length ms j
      → ((k : ℕ)
          → k < length ms
          → matches path (nth ms k) ≡ true
          → point_length ms k ≤ point_length ms j)
      → ((k : ℕ) → k < j → matches path (nth ms k) ≡ true → point_length ms k < point_length ms j)
      → r ≡ (some (i + j), point_length ms j)
      → Best path ms i best bl r

all_of : (P : ℕ → Type 0) → P 0 → ((k : ℕ) → P (suc k)) → (k : ℕ) → P k
all_of P z s zero = z
all_of P z s (suc k) = s k

Best-taken :
    (path : List ℕ) (m : Mount) (ms : List Mount) (i : ℕ) (best : Option ℕ) (bl : ℕ)
    {r : Option ℕ × ℕ}
    → matches path m ≡ true
    → bl < length m.mount_point
    → Best path ms (i + 1) (some i) (length m.mount_point) r
    → Best path (m ∷ ms) i best bl r
Best-taken path m ms i best bl y l (kept all e) =
    longer 0 (omega arith) y l (all_of _ (λ h z. omega arith) (λ k h z. all k (omega (arith, h)) z))
      (λ k h. absurd (omega (arith, h)))
      (e ∙ ap (λ (n : ℕ). (some n, length m.mount_point)) (omega arith))
Best-taken path m ms i best bl y l (longer j hj yj lj all first e) =
    longer (suc j) (omega arith) yj (omega (arith, l, lj))
      (all_of _ (λ h z. omega (arith, lj)) (λ k h z. all k (omega (arith, h)) z))
      (all_of _ (λ h z. lj) (λ k h z. first k (omega (arith, h)) z))
      (e ∙ ap (λ (n : ℕ). (some n, point_length ms j)) (omega arith))

Best-passed :
    (path : List ℕ) (m : Mount) (ms : List Mount) (i : ℕ) (best : Option ℕ) (bl : ℕ)
    {r : Option ℕ × ℕ}
    → (matches path m ≡ true → length m.mount_point ≤ bl)
    → Best path ms (i + 1) best bl r
    → Best path (m ∷ ms) i best bl r
Best-passed path m ms i best bl small (kept all e) =
    kept (all_of _ (λ h z. small z) (λ k h z. all k (omega (arith, h)) z)) e
Best-passed path m ms i best bl small (longer j hj yj lj all first e) =
    longer (suc j) (omega arith) yj lj
      (all_of _ (λ h z. omega (arith, lj, small z)) (λ k h z. all k (omega (arith, h)) z))
      (all_of _ (λ h z. omega (arith, lj, small z)) (λ k h z. first k (omega (arith, h)) z))
      (e ∙ ap (λ (n : ℕ). (some n, point_length ms j)) (omega arith))

best_mount-Best :
    (path : List ℕ) (ms : List Mount) (i : ℕ) (best : Option ℕ) (bl : ℕ)
    → Best path ms i best bl (best_mount path ms i best bl)
unfolding best_mount
best_mount-Best path [] i best bl = kept (λ k h. absurd (omega (arith, h))) refl
best_mount-Best path (m ∷ ms) i best bl =
    elim (Bool-cases (matches path m && ltb bl (length m.mount_point))) [
      | inl y ↦
          rw (y, best_mount)
            (Best-taken path m ms i best bl (ground (arith, y)) (ground (arith, y))
              (best_mount-Best path ms (i + 1) (some i) (length m.mount_point)))
      | inr n ↦
          rw (n, best_mount)
            (Best-passed path m ms i best bl (λ z. ground (arith, n, z))
              (best_mount-Best path ms (i + 1) best bl))
    ]

-- The answer of `resolvePath`: no mount point that is not empty matches the path, or the first of
-- the longest ones that do, and the rest of the path behind it and one slash, cut to the size less
-- one, which wraps around for a size of 0.
pub data Resolved (ms : List Mount) (path : List ℕ) (size : ℕ) (r : Option (ℕ × List ℕ))
    : Type 0 where
  nowhere :
      ((k : ℕ) → k < length ms → matches path (nth ms k) ≡ true → point_length ms k ≡ 0)
      → r ≡ none
      → Resolved ms path size r
  below :
      (j : ℕ)
      → j < length ms
      → matches path (nth ms j) ≡ true
      → 0 < point_length ms j
      → ((k : ℕ)
          → k < length ms
          → matches path (nth ms k) ≡ true
          → point_length ms k ≤ point_length ms j)
      → ((k : ℕ) → k < j → matches path (nth ms k) ≡ true → point_length ms k < point_length ms j)
      → r ≡ some (j, take (sub64 size 1) (skip_slash (drop (point_length ms j) path)))
      → Resolved ms path size r

resolved_by :
    (ms : List Mount) (path : List ℕ) (size : ℕ) (b : Option ℕ) (bl : ℕ)
    → best_mount path ms 0 none 0 ≡ (b, bl)
    → resolve_path ms path size
      ≡ elim b [ none ↦ none | some i ↦ some (i, take (sub64 size 1) (skip_slash (drop bl path))) ]
unfolding resolve_path
resolved_by ms path size b bl e =
    ap
      (λ (r : Option ℕ × ℕ). elim r.0 [
        | none ↦ none
        | some i ↦ some (i, take (sub64 size 1) (skip_slash (drop r.1 path)))
      ])
      e

from_Best :
    (ms : List Mount) (path : List ℕ) (size : ℕ)
    → Best path ms 0 none 0 (best_mount path ms 0 none 0)
    → Resolved ms path size (resolve_path ms path size)
from_Best ms path size (kept all e) =
    nowhere (λ k h z. omega (arith, all k h z)) (resolved_by ms path size none 0 e)
from_Best ms path size (longer j hj y l all first e) = below j hj y l all first (
    resolved_by ms path size (some j) (point_length ms j)
      (e ∙ ap (λ (n : ℕ). (some n, point_length ms j)) {x = 0 + j} {y = j} (omega arith)))

-- For every mount table, path and size, `resolvePath` answers nothing if no mount point but an
-- empty one matches the path, and else the first of the longest mount points that match, with the
-- rest of the path behind it and one slash, cut to the size less one, which wraps around at 0.
pub resolve_path-Resolved :
    (ms : List Mount) (path : List ℕ) (size : ℕ) → Resolved ms path size (resolve_path ms path size)
resolve_path-Resolved ms path size = from_Best ms path size (best_mount-Best path ms 0 none 0)
