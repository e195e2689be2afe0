-- ===== src/Base/Slices.antt =====
-- Lists put together and taken apart again.
use Prim.Native.Nat.{ℕ, zero, suc, ◌+◌, ◌≤◌}
use mathlib.Core.Path.{◌≡◌, refl, sym, ap, ◌∙◌}
use mathlib.Core.List.{List, [], ◌∷◌, ◌++◌}
use native.Mathlib.Omega.{arith}
use weng_shi_os.Base.Lists.{length, take, drop}

pub drop_past : (n : ℕ) (xs ys : List ℕ) → length xs ≡ n → drop n (xs ++ ys) ≡ ys
drop_past zero [] ys h = refl
drop_past (suc n) [] ys h = absurd (omega (arith, h))
drop_past zero (x ∷ xs) ys h = absurd (omega (arith, h))
drop_past (suc n) (x ∷ xs) ys h = drop_past n xs ys (omega (arith, h))

pub take_past : (n : ℕ) (xs ys : List ℕ) → length xs ≡ n → take n (xs ++ ys) ≡ xs
take_past zero [] ys h = refl
take_past (suc n) [] ys h = absurd (omega (arith, h))
take_past zero (x ∷ xs) ys h = absurd (omega (arith, h))
take_past (suc n) (x ∷ xs) ys h = ap (λ t. x ∷ t) (take_past n xs ys (omega (arith, h)))

pub drop_all : (n : ℕ) (xs : List ℕ) → length xs ≤ n → drop n xs ≡ []
drop_all zero [] h = refl
drop_all (suc n) [] h = refl
drop_all zero (x ∷ xs) h = absurd (omega (arith, h))
drop_all (suc n) (x ∷ xs) h = drop_all n xs (omega (arith, h))

pub drop-drop : (n m : ℕ) (xs : List ℕ) → drop (n + m) xs ≡ drop m (drop n xs)
drop-drop zero m xs = ap (λ (k : ℕ). drop k xs) (omega arith)
drop-drop (suc n) m [] =
    ap (λ (k : ℕ). drop k []) {x = suc n + m} {y = suc (n + m)} (omega arith)
    ∙ sym (drop_all m [] (omega arith))
drop-drop (suc n) m (x ∷ xs) =
    ap (λ (k : ℕ). drop k (x ∷ xs)) {x = suc n + m} {y = suc (n + m)} (omega arith)
    ∙ drop-drop n m xs

pub take_inside :
    (o k : ℕ) (xs ys : List ℕ) → o + k ≤ length xs → take k (drop o (xs ++ ys)) ≡ take k (drop o xs)
take_inside zero zero xs ys h = refl
take_inside zero (suc k) [] ys h = absurd (omega (arith, h))
take_inside zero (suc k) (x ∷ xs) ys h =
    ap (λ (t : List ℕ). x ∷ t) (take_inside zero k xs ys (omega (arith, h)))
take_inside (suc o) k (x ∷ xs) ys h = take_inside o k xs ys (omega (arith, h))
take_inside (suc o) k [] ys h = absurd (omega (arith, h))

pub take_cut :
    (o k n : ℕ) (xs : List ℕ) → o + k ≤ n → take k (drop o (take n xs)) ≡ take k (drop o xs)
take_cut zero zero n xs h = refl
take_cut zero (suc k) zero xs h = absurd (omega (arith, h))
take_cut zero (suc k) (suc n) [] h = refl
take_cut zero (suc k) (suc n) (x ∷ xs) h =
    ap (λ (t : List ℕ). x ∷ t) (take_cut zero k n xs (omega (arith, h)))
take_cut (suc o) k zero xs h = absurd (omega (arith, h))
take_cut (suc o) k (suc n) [] h = refl
take_cut (suc o) k (suc n) (x ∷ xs) h = take_cut o k n xs (omega (arith, h))
