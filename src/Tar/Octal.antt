-- ===== src/Tar/Octal.antt =====
-- The numbers of src/file_formats/tar/tar.cpp.
use native.Mathlib.Nat.{pow-suc}
use weng_shi_os.Base.{
  ℕ, zero, suc, ◌+◌, ◌-◌, ◌*◌, ◌/◌, ◌%◌, ◌^◌, ◌≤◌, ◌<◌, ◌≡◌, List, ◌∷◌, length, arith, ◌∙◌, ap,
}
use weng_shi_os.Tar.{oct_to_dec, data_size_with_padding}

-- The last `k` octal digits of `n`, in front of a text.
abbrev pub octal : ℕ → ℕ → List ℕ → List ℕ
octal zero n s = s
octal (suc k) n s = octal k (n / 8) ((48 + n % 8) ∷ s)

pub length-octal : (k n : ℕ) (s : List ℕ) → length (octal k n s) ≡ k + length s
length-octal zero n s = omega arith
length-octal (suc k) n s = omega (arith, length-octal k (n / 8) ((48 + n % 8) ∷ s))

one_digit :
    (m d n : ℕ) (s : List ℕ)
    → d < 8
    → n * 8 + d < 2 ^ 64
    → oct_to_dec (suc m) ((48 + d) ∷ s) n ≡ oct_to_dec m s (n * 8 + d)
unfolding oct_to_dec
one_digit m d n s h k =
    let value : (n * 8 + (48 + d - 48)) % 2 ^ 64 ≡ n * 8 + d = omega (arith, h, k) in
    ground (arith, h, value)

pub oct_to_dec-octal :
    (k m n : ℕ) (s : List ℕ)
    → n < 8 ^ k
    → n < 2 ^ 64
    → oct_to_dec (k + m) (octal k n s) 0 ≡ oct_to_dec m s n
oct_to_dec-octal zero m n s h t =
    ap (λ (j : ℕ). oct_to_dec j s 0) {x = 0 + m} {y = m} (omega arith)
    ∙ ap (λ (j : ℕ). oct_to_dec m s j) {x = 0} {y = n} (omega (arith, h))
oct_to_dec-octal (suc k) m n s h t =
    ap (λ (j : ℕ). oct_to_dec j (octal k (n / 8) ((48 + n % 8) ∷ s)) 0) {x = suc k + m}
      {y = k + suc m} (omega arith)
    ∙ oct_to_dec-octal k (suc m) (n / 8) ((48 + n % 8) ∷ s) (omega (arith, h, pow-suc 8 k))
        (omega (arith, t))
    ∙ one_digit m (n % 8) (n / 8) s (omega arith) (omega (arith, t))
    ∙ ap (oct_to_dec m s) {x = n / 8 * 8 + n % 8} {y = n} (omega arith)

-- The padded size is the least multiple of 512 that is not less than the size, below 2 ^ 64 - 512.
pub data_size_with_padding_lem :
    (size : ℕ)
    → size + 512 ≤ 2 ^ 64
    → (data_size_with_padding size % 512 ≡ 0)
      × (size ≤ data_size_with_padding size)
      × (data_size_with_padding size < size + 512)
unfolding data_size_with_padding
data_size_with_padding_lem size h = (omega (arith, h), omega (arith, h), omega (arith, h))
