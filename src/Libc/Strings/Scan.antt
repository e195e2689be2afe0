-- ===== src/Libc/Strings/Scan.antt =====
-- The scanning functions of src/libc/string.cpp on texts: byte lists that stand in memory.
use weng_shi_os.Base.{
  ℕ, zero, suc, ◌+◌, ◌<◌, ◌≡◌, ◌↔◌, refl, ◌==◌, List, [], ◌∷◌, length, take, some, if◌then◌else◌,
  arith, ◌∙◌, subst,
}
use weng_shi_os.Base.Int.{ℤ, pos, sub_ℕ}
use weng_shi_os.Base.Mem.{Mem, IsText}
use weng_shi_os.Libc.Strings.{strlen_loop, strlen, strcmp, strncmp}

IsText-at : (m : Mem) (s : List ℕ) {p q : ℕ} → p ≡ q → IsText m p s → IsText m q s
IsText-at m s e t = subst (λ (a : ℕ). IsText m a s) e t

strlen_loop_lem :
    (s : List ℕ) (f : ℕ) (m : Mem) (p len : ℕ)
    → IsText m (p + len) s
    → length s < f
    → strlen_loop f m p len ≡ some (len + length s)
unfolding strlen_loop
strlen_loop_lem s zero m p len t h = absurd (omega arith)
strlen_loop_lem [] (suc f) m p len t h = ground arith
strlen_loop_lem (c ∷ s) (suc f) m p len t h =
    ground (arith, strlen_loop_lem s f m p (len + 1) (IsText-at m s (omega arith) t.2))

-- With fuel above the length, `strlen` returns the length of the text.
pub strlen_lem :
    (s : List ℕ) (fuel : ℕ) (m : Mem) (p : ℕ)
    → IsText m p s
    → length s < fuel
    → strlen fuel m p ≡ some (length s)
unfolding strlen
strlen_lem s fuel m p t h =
    ground (arith, strlen_loop_lem s fuel m p 0 (IsText-at m s (omega arith) t))

-- The order of two texts that `strcmp` computes: the difference of the first two bytes that
-- differ, where a NUL ends each text.
pub compare_texts : List ℕ → List ℕ → ℤ
compare_texts [] [] = pos 0
compare_texts [] (d ∷ t) = sub_ℕ 0 d
compare_texts (c ∷ s) [] = sub_ℕ c 0
compare_texts (c ∷ s) (d ∷ t) = if c == d then compare_texts s t else sub_ℕ c d

-- With fuel above the first text's length, `strcmp` computes `compare_texts`.
pub strcmp_lem :
    (s t : List ℕ) (fuel : ℕ) (m : Mem) (a b : ℕ)
    → IsText m a s
    → IsText m b t
    → length s < fuel
    → strcmp fuel m a b ≡ some (compare_texts s t)
unfolding strcmp compare_texts
strcmp_lem s t zero m a b p q h = absurd (omega arith)
strcmp_lem [] [] (suc f) m a b p q h = ground arith
strcmp_lem [] (d ∷ t) (suc f) m a b p q h = ground arith
strcmp_lem (c ∷ s) [] (suc f) m a b p q h = ground arith
strcmp_lem (c ∷ s) (d ∷ t) (suc f) m a b p q h = ground (arith, strcmp_lem s t f m (a + 1) (b + 1))

-- The texts in memory hold no NUL, so only equal texts compare as 0.
compare_texts-zero :
    (s t : List ℕ) (m : Mem) (a b : ℕ)
    → IsText m a s
    → IsText m b t
    → compare_texts s t ≡ pos 0
    → s ≡ t
unfolding compare_texts
compare_texts-zero [] [] m a b p q e = refl
compare_texts-zero [] (d ∷ t) m a b p q e = ground arith
compare_texts-zero (c ∷ s) [] m a b p q e = ground arith
compare_texts-zero (c ∷ s) (d ∷ t) m a b p q e =
    ground (arith, compare_texts-zero s t m (a + 1) (b + 1) p.2 q.2)

compare_texts_self : (s : List ℕ) → compare_texts s s ≡ pos 0
unfolding compare_texts
compare_texts_self [] = refl
compare_texts_self (c ∷ s) = ground (arith, compare_texts_self s)

strncmp_agree :
    (s t : List ℕ) (count : ℕ) (m : Mem) (a b : ℕ)
    → IsText m a s
    → IsText m b t
    → strncmp count m a b ≡ pos 0
    → take count s ≡ take count t
unfolding strncmp
strncmp_agree s t zero m a b p q e = refl
strncmp_agree [] [] (suc n) m a b p q e = refl
strncmp_agree [] (d ∷ t) (suc n) m a b p q e = ground arith
strncmp_agree (c ∷ s) [] (suc n) m a b p q e = ground arith
strncmp_agree (c ∷ s) (d ∷ t) (suc n) m a b p q e =
    ground (arith, strncmp_agree s t n m (a + 1) (b + 1) p.2 q.2)

strncmp_of_take :
    (s t : List ℕ) (count : ℕ) (m : Mem) (a b : ℕ)
    → IsText m a s
    → IsText m b t
    → take count s ≡ take count t
    → strncmp count m a b ≡ pos 0
unfolding strncmp
strncmp_of_take s t zero m a b p q e = refl
strncmp_of_take [] [] (suc n) m a b p q e = ground arith
strncmp_of_take [] (d ∷ t) (suc n) m a b p q e = cc
strncmp_of_take (c ∷ s) [] (suc n) m a b p q e = cc
strncmp_of_take (c ∷ s) (d ∷ t) (suc n) m a b p q e =
    ground (arith, strncmp_of_take s t n m (a + 1) (b + 1) p.2 q.2)

-- `strcmp` answers 0 exactly for equal texts.
pub strcmp-zero :
    (s t : List ℕ) (fuel : ℕ) (m : Mem) (a b : ℕ)
    → IsText m a s
    → IsText m b t
    → length s < fuel
    → (strcmp fuel m a b ≡ some (pos 0)) ↔ (s ≡ t)
strcmp-zero s t fuel m a b p q h = (
  λ e. compare_texts-zero s t m a b p q (ground (arith, strcmp_lem s t fuel m a b p q h)),
  λ e. strcmp_lem s t fuel m a b p q h ∙ ground (arith, compare_texts_self s),
)

-- `strncmp` answers 0 exactly for two texts whose first `count` bytes agree, a shorter text counting
-- whole.
pub strncmp-zero :
    (s t : List ℕ) (count : ℕ) (m : Mem) (a b : ℕ)
    → IsText m a s
    → IsText m b t
    → (strncmp count m a b ≡ pos 0) ↔ (take count s ≡ take count t)
strncmp-zero s t count m a b p q =
    (strncmp_agree s t count m a b p q, strncmp_of_take s t count m a b p q)
