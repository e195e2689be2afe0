-- ===== src/Vfs/Canonical.antt =====
-- The paths that `normalizePath` of src/fs/vfs.cpp writes.
use weng_shi_os.Base.{
  ℕ, zero, suc, ◌+◌, ◌-◌, ◌^◌, ◌≤◌, ◌<◌, ◌≡◌, false, ◌==◌, ltb, List, [], ◌∷◌, ◌++◌, length, take,
  drop, arith, refl, sym, ap, ◌∙◌, subst, Bool-cases, inl, inr, length-append, if_cases,
}
use weng_shi_os.Base.Word.{sub64}
use weng_shi_os.Vfs.Normalize.{
  skip_slashes, take_segment, is_dot, is_dot_dot, add_segment, segment_loop, write_segments,
  in_order,
}

abbrev pub NoSlash : List ℕ → Type 0
NoSlash [] = Unit {0}
NoSlash (c ∷ s) = ((c == 47) ≡ false) × NoSlash s

-- A segment that stays: not empty, at most 63 bytes without a slash, and neither `.` nor `..`.
pub record Clean (s : List ℕ) : Type 0 where
  pub no_slash : NoSlash s
  pub filled : 0 < length s
  pub short : length s ≤ 63
  pub not_dot : is_dot s ≡ false
  pub not_dot_dot : is_dot_dot s ≡ false

abbrev pub AllClean : List (List ℕ) → Type 0
AllClean [] = Unit {0}
AllClean (s ∷ segments) = Clean s × AllClean segments

-- The bytes of the segments with a slash for each.
abbrev pub weight : List (List ℕ) → ℕ
weight [] = 0
weight (s ∷ segments) = suc (length s) + weight segments

pub take-all : (n : ℕ) (s : List ℕ) → length s ≤ n → take n s ≡ s
take-all zero [] h = refl
take-all zero (c ∷ s) h = absurd (omega (arith, h))
take-all (suc n) [] h = refl
take-all (suc n) (c ∷ s) h = ap (λ t. c ∷ t) (take-all n s (omega (arith, h)))

NoSlash-take : (n : ℕ) (s : List ℕ) → NoSlash s → NoSlash (take n s)
NoSlash-take zero s h = tt
NoSlash-take (suc n) [] h = tt
NoSlash-take (suc n) (c ∷ s) h = (h.0, NoSlash-take n s h.1)

length-take_more : (n : ℕ) (s : List ℕ) → n < length s → length (take n s) ≡ n
length-take_more zero s h = refl
length-take_more (suc n) [] h = absurd (omega (arith, h))
length-take_more (suc n) (c ∷ s) h = omega (arith, length-take_more n s (omega (arith, h)))

length-take_le : (n : ℕ) (s : List ℕ) → (length (take n s) ≤ length s) × (length (take n s) ≤ n)
length-take_le zero s = (omega arith, omega arith)
length-take_le (suc n) [] = (omega arith, omega arith)
length-take_le (suc n) (c ∷ s) =
    (omega (arith, (length-take_le n s).0), omega (arith, (length-take_le n s).1))

cut-Clean :
    (s : List ℕ)
    → NoSlash s
    → (length s == 0) ≡ false
    → is_dot s ≡ false
    → is_dot_dot s ≡ false
    → Clean (take 63 s)
unfolding is_dot is_dot_dot
cut-Clean s n e d dd = elim (Bool-cases (ltb 63 (length s))) [
  | inl l ↦
      let size : length (take 63 s) ≡ 63 = length-take_more 63 s (ground (arith, l)) in
      record {
        no_slash = NoSlash-take 63 s n;
        filled = omega (arith, size);
        short = omega (arith, size);
        not_dot = ground (arith, size);
        not_dot_dot = ground (arith, size);
      }
  | inr l ↦ subst Clean (sym (take-all 63 s (ground (arith, l)))) (record {
    no_slash = n;
    filled = ground (arith, e);
    short = ground (arith, l);
    not_dot = d;
    not_dot_dot = dd;
  })
]

AllClean-drop : (stack : List (List ℕ)) → AllClean stack → AllClean (drop 1 stack)
AllClean-drop [] h = tt
AllClean-drop (s ∷ stack) h = h.1

drop_size :
    (stack : List (List ℕ))
    → (length (drop 1 stack) ≤ length stack) × (weight (drop 1 stack) ≤ weight stack)
drop_size [] = (omega arith, omega arith)
drop_size (s ∷ stack) = (omega arith, omega arith)

-- One round keeps the stack clean and at most 32 high, and adds at most the segment.
pub record Kept (stack : List (List ℕ)) (size : ℕ) : Type 0 where
  pub clean : AllClean stack
  pub high : length stack ≤ 32
  pub room : weight stack ≤ size

add_segment-Kept :
    (stack : List (List ℕ)) (s : List ℕ) (size : ℕ)
    → Kept stack size
    → NoSlash s
    → Kept (add_segment stack s) (size + length s + 1)
unfolding add_segment
add_segment-Kept stack s size k n =
    let more : (r : List (List ℕ)) → Type 0 = λ r. Kept r (size + length s + 1) in
    let same : more stack = record {
      clean = k.clean;
      high = k.high;
      room = omega (arith, k.room);
    } in
    if_cases more (length s == 0) (λ e. same)
      (λ e.
        if_cases more (is_dot s) (λ d. same)
          (λ d.
            if_cases more (is_dot_dot s)
              (λ dd. record {
                clean = AllClean-drop stack k.clean;
                high = omega (arith, k.high, (drop_size stack).0);
                room = omega (arith, k.room, (drop_size stack).1);
              })
              (λ dd.
                if_cases more (ltb (length stack) 32)
                  (λ l. record {
                    clean = (cut-Clean s n e d dd, k.clean);
                    high = ground (arith, l);
                    room = omega (arith, k.room, (length-take_le 63 s).0);
                  })
                  (λ l. same))))

-- The text splits into the segment and the rest, which is empty or starts with a slash.
take_segment-parts : (p : List ℕ) → (take_segment p).0 ++ (take_segment p).1 ≡ p
unfolding take_segment
take_segment-parts [] = refl
take_segment-parts (c ∷ s) = elim (Bool-cases (c == 47)) [
  | inl e ↦ ground (arith, e)
  | inr e ↦ ground (arith, e, take_segment-parts s)
]

take_segment-NoSlash : (p : List ℕ) → NoSlash (take_segment p).0
unfolding take_segment
take_segment-NoSlash [] = tt
take_segment-NoSlash (c ∷ s) =
    if_cases (λ (r : List ℕ × List ℕ). NoSlash r.0) (c == 47) (λ e. tt)
      (λ e. (e, take_segment-NoSlash s))

-- What is left for the rounds after this one is shorter by the segment and its slash.
pub skip_slashes-le : (s : List ℕ) → length (skip_slashes s) ≤ length s
unfolding skip_slashes
skip_slashes-le [] = omega arith
skip_slashes-le (c ∷ s) =
    if_cases (λ (r : List ℕ). length r ≤ suc (length s)) (c == 47)
      (λ e. omega (arith, skip_slashes-le s)) (λ e. omega arith)

-- With the slash that ends the last segment, which the text need not have.
abbrev pub ended : List ℕ → ℕ
ended [] = 0
ended (c ∷ s) = suc (suc (length s))

pub ended-le : (p : List ℕ) → ended p ≤ length p + 1
ended-le [] = omega arith
ended-le (c ∷ s) = omega arith

pub round_size :
    (p : List ℕ)
    → length (take_segment p).0 + 1 + ended (skip_slashes (take_segment p).1) ≤ length p + 1
unfolding take_segment skip_slashes
round_size [] = omega arith
round_size (c ∷ s) = elim (Bool-cases (c == 47)) [
  | inl e ↦ ground (arith, e, ended-le (skip_slashes s), skip_slashes-le s)
  | inr e ↦ ground (arith, e, round_size s)
]

pub segment_loop-Kept :
    (fuel p : List ℕ) (stack : List (List ℕ)) (size : ℕ)
    → Kept stack size
    → Kept (segment_loop fuel p stack) (size + ended p)
unfolding segment_loop
segment_loop-Kept [] p stack size k = record {
  clean = k.clean;
  high = k.high;
  room = omega (arith, k.room);
}
segment_loop-Kept (f ∷ fuel) [] stack size k = record {
  clean = k.clean;
  high = k.high;
  room = omega (arith, k.room);
}
segment_loop-Kept (f ∷ fuel) (c ∷ s) stack size k =
    let r =
      segment_loop-Kept fuel (skip_slashes (take_segment (c ∷ s)).1)
        (add_segment stack (take_segment (c ∷ s)).0) (size + length (take_segment (c ∷ s)).0 + 1)
        (add_segment-Kept stack (take_segment (c ∷ s)).0 size k (take_segment-NoSlash (c ∷ s))) in
    record { clean = r.clean; high = r.high; room = omega (arith, r.room, round_size (c ∷ s)) }

pub in_order-AllClean :
    (done stack : List (List ℕ)) → AllClean done → AllClean stack → AllClean (in_order done stack)
unfolding in_order
in_order-AllClean done [] d h = d
in_order-AllClean done (s ∷ stack) d h = in_order-AllClean (s ∷ done) stack (h.0, d) h.1

pub in_order-size :
    (done stack : List (List ℕ))
    → (length (in_order done stack) ≡ length done + length stack)
      × (weight (in_order done stack) ≡ weight done + weight stack)
unfolding in_order
in_order-size done [] = (omega arith, omega arith)
in_order-size done (s ∷ stack) = (
  omega (arith, (in_order-size (s ∷ done) stack).0),
  omega (arith, (in_order-size (s ∷ done) stack).1),
)

-- The segments with slashes between them.
unfoldable pub joined : List (List ℕ) → List ℕ
joined [] = []
joined (s ∷ segments) = elim segments [ [] ↦ s | t ∷ more ↦ s ++ 47 ∷ joined segments ]

pub length-joined : (segments : List (List ℕ)) → length (joined segments) ≤ weight segments - 1
unfolding joined
length-joined [] = omega arith
length-joined (s ∷ []) = omega arith
length-joined (s ∷ t ∷ more) =
    omega (arith, length-append s (47 ∷ joined (t ∷ more)), length-joined (t ∷ more))

-- With room for all of it, the loop writes the joined segments.
pub write_segments-joined :
    (out_size oi : ℕ) (segments : List (List ℕ))
    → 2 ≤ out_size
    → out_size < 2 ^ 64
    → oi + weight segments + 1 ≤ out_size
    → write_segments out_size oi segments ≡ joined segments
unfolding write_segments joined
write_segments-joined n oi [] l h w = refl
write_segments-joined n oi (s ∷ []) l h w = take-all _ s (omega (arith, w, l, h))
write_segments-joined n oi (s ∷ t ∷ more) l h w =
    let all = take-all (sub64 n 2 - oi) s (omega (arith, w, l, h)) in
    ap (λ (r : List ℕ). r ++ 47 ∷ write_segments n (oi + length r + 1) (t ∷ more)) all
    ∙ ap (λ (r : List ℕ). s ++ 47 ∷ r)
        (write_segments-joined n (oi + length s + 1) (t ∷ more) l h (omega (arith, w)))
