-- ===== src/Vfs/Rooted.antt =====
-- What `normalizePath` of src/fs/vfs.cpp writes, from an absolute working directory.
use weng_shi_os.Base.{
  ℕ, ◌-◌, ◌^◌, ◌≤◌, ◌<◌, ◌≡◌, true, List, [], ◌∷◌, ◌++◌, length, take, drop, arith, refl, sym, ap,
  subst, length-append, length-take, if_cases,
}
use weng_shi_os.Vfs.Normalize.{
  is_absolute, ends_in_slash, combine, skip_slashes, segment_loop, in_order, normalize_path,
}
use weng_shi_os.Vfs.Canonical.{
  AllClean, weight, ended-le, skip_slashes-le, segment_loop-Kept, in_order-AllClean, in_order-size,
  joined, length-joined, write_segments-joined,
}

-- A path with a slash in front of at most 254 bytes.
abbrev pub Rooted : List ℕ → Type 0
Rooted p = (t : List ℕ) × (p ≡ 47 ∷ t) × (length t ≤ 254)

base-Rooted :
    (base input : List ℕ) (t : List ℕ)
    → base ≡ 47 ∷ t
    → length t ≤ 254
    → Rooted (base ++ take (255 - length base) input)
base-Rooted base input t e l = (
  t ++ take (255 - length base) input,
  ap (λ (b : List ℕ). b ++ take (255 - length base) input) e,
  omega (
    arith,
    length-append t (take (255 - length base) input),
    length-take (255 - length base) input,
    ap length e,
    l,
  ),
)

start-Rooted :
    (cwd : List ℕ)
    → is_absolute cwd ≡ true
    → (t : List ℕ) × (take 254 cwd ≡ 47 ∷ t) × (length t ≤ 253)
unfolding is_absolute
start-Rooted [] a = absurd (ground (arith, a))
start-Rooted (c ∷ s) a = (
  take 253 s,
  ap (λ (n : ℕ). n ∷ take 253 s) (ground (arith, a)),
  omega (arith, length-take 253 s),
)

pub combine-Rooted : (cwd input : List ℕ) → is_absolute cwd ≡ true → Rooted (combine cwd input)
unfolding combine
combine-Rooted cwd input a =
    let (t, e, l) = start-Rooted cwd a in
    if_cases Rooted (is_absolute input)
      (λ i. (take 254 (drop 1 input), refl, omega (arith, length-take 254 (drop 1 input))))
      (λ i.
        if_cases (λ (b : List ℕ). Rooted (b ++ take (255 - length b) input))
          (ends_in_slash (take 254 cwd))
          (λ z. base-Rooted (take 254 cwd) input t e (omega (arith, l)))
          (λ z.
            base-Rooted (take 254 cwd ++ 47 ∷ []) input (t ++ 47 ∷ [])
              (ap (λ (b : List ℕ). b ++ 47 ∷ []) e) (omega (arith, l, length-append t (47 ∷ [])))))

-- The segments that the loops leave.
abbrev pub segments_of : List ℕ → List (List ℕ)
segments_of combined = in_order [] (segment_loop (skip_slashes combined) (skip_slashes combined) [])

pub segments_of-Clean :
    (p : List ℕ)
    → Rooted p
    → AllClean (segments_of p) × (length (segments_of p) ≤ 32) × (weight (segments_of p) ≤ 255)
unfolding skip_slashes
segments_of-Clean p (t, e, l) =
    let k =
      segment_loop-Kept (skip_slashes p) (skip_slashes p) [] 0
        (record { clean = tt; high = omega arith; room = omega arith }) in
    let size : length (skip_slashes p) ≤ 254 =
      subst (λ (q : List ℕ). length (skip_slashes q) ≤ 254) (sym e)
        (omega (arith, skip_slashes-le t, l)) in
    let w = in_order-size [] (segment_loop (skip_slashes p) (skip_slashes p) []) in
    (
      in_order-AllClean [] _ tt k.clean,
      omega (arith, w.0, k.high),
      omega (arith, w.1, k.room, size, ended-le (skip_slashes p)),
    )

pub normal_form :
    (cwd input : List ℕ) (n : ℕ)
    → is_absolute cwd ≡ true
    → 257 ≤ n
    → n < 2 ^ 64
    → normalize_path cwd input n ≡ 47 ∷ joined (segments_of (combine cwd input))
unfolding normalize_path
normal_form cwd input n a l h =
    let w = (segments_of-Clean (combine cwd input) (combine-Rooted cwd input a)).2 in
    ap (λ (r : List ℕ). 47 ∷ r)
      (write_segments-joined n 1 (segments_of (combine cwd input)) (omega (arith, l)) h
        (omega (arith, w, l)))

-- From an absolute working directory and into at least 257 bytes, the path is a slash and at most
-- 32 segments with slashes between them, of which none is empty, `.`, `..` or longer than 63, and
-- the path with its NUL fits.
pub normalize_path-Clean :
    (cwd input : List ℕ) (out_size : ℕ)
    → is_absolute cwd ≡ true
    → 257 ≤ out_size
    → out_size < 2 ^ 64
    → (segments : List (List ℕ)) × (normalize_path cwd input out_size ≡ 47 ∷ joined segments)
      × AllClean segments
      × (length segments ≤ 32)
      × (length (normalize_path cwd input out_size) < out_size)
normalize_path-Clean cwd input n a l h =
    let (clean, high, w) = segments_of-Clean (combine cwd input) (combine-Rooted cwd input a) in
    let e = normal_form cwd input n a l h in
    let size : length (joined (segments_of (combine cwd input))) ≤ 254 =
      omega (arith, length-joined (segments_of (combine cwd input)), w) in
    (segments_of (combine cwd input), e, clean, high, omega (arith, ap length e, size, l))
