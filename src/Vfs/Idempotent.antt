-- ===== src/Vfs/Idempotent.antt =====
-- The paths of `normalizePath` of src/fs/vfs.cpp read again, from an absolute working directory.
use weng_shi_os.Base.{
  ℕ, ◌+◌, ◌^◌, ◌≤◌, ◌<◌, ◌≡◌, true, List, [], ◌∷◌, ◌++◌, length, arith, refl, sym, ap, ◌∙◌, subst,
  length-append,
}
use weng_shi_os.Vfs.Rooted.{combine-Rooted, segments_of, segments_of-Clean, normal_form}
use mathlib.Core.List.{append-nil}
use weng_shi_os.Vfs.Normalize.{
  is_absolute, combine, skip_slashes, take_segment, add_segment, segment_loop, in_order,
  normalize_path,
}
use weng_shi_os.Vfs.Canonical.{NoSlash, Clean, AllClean, joined, length-joined, take-all}

take_segment-end : (s : List ℕ) → NoSlash s → take_segment s ≡ (s, [])
unfolding take_segment
take_segment-end [] h = refl
take_segment-end (c ∷ s) h = ground (arith, h.0, take_segment-end s h.1)

take_segment-slash : (s t : List ℕ) → NoSlash s → take_segment (s ++ 47 ∷ t) ≡ (s, 47 ∷ t)
unfolding take_segment
take_segment-slash [] t h = refl
take_segment-slash (c ∷ s) t h = ground (arith, h.0, take_segment-slash s t h.1)

add_segment-push :
    (stack : List (List ℕ)) (s : List ℕ)
    → Clean s
    → length stack < 32
    → add_segment stack s ≡ s ∷ stack
unfolding add_segment
add_segment-push stack s c l =
    ground (arith, c.filled, c.not_dot, c.not_dot_dot, take-all 63 s c.short, l)

-- A text that does not start with a slash stays.
skip_slashes-stay : (s t : List ℕ) → Clean s → skip_slashes (s ++ t) ≡ s ++ t
unfolding skip_slashes
skip_slashes-stay [] t c = absurd (omega (arith, c.filled))
skip_slashes-stay (x ∷ s) t c = ground (arith, c.no_slash)

skip_slashes-nil : skip_slashes [] ≡ []
unfolding skip_slashes
skip_slashes-nil = refl

skip_slashes-slash : (s : List ℕ) → skip_slashes (47 ∷ s) ≡ skip_slashes s
unfolding skip_slashes
skip_slashes-slash s = refl

skip_slashes-joined :
    (segments : List (List ℕ))
    → AllClean segments
    → skip_slashes (joined segments) ≡ joined segments
unfolding joined
skip_slashes-joined [] h = unfold skip_slashes in refl
skip_slashes-joined (s ∷ []) h =
    subst (λ (r : List ℕ). skip_slashes r ≡ r) (append-nil s) (skip_slashes-stay s [] h.0)
skip_slashes-joined (s ∷ t ∷ more) h = skip_slashes-stay s _ h.0

segment_round :
    (f : ℕ) (fuel p : List ℕ) (stack : List (List ℕ))
    → 0 < length p
    → segment_loop (f ∷ fuel) p stack
      ≡ segment_loop fuel (skip_slashes (take_segment p).1) (add_segment stack (take_segment p).0)
unfolding segment_loop
segment_round f fuel [] stack h = absurd (omega (arith, h))
segment_round f fuel (c ∷ s) stack h = refl

abbrev push_all : List (List ℕ) → List (List ℕ) → List (List ℕ)
push_all stack [] = stack
push_all stack (s ∷ segments) = push_all (s ∷ stack) segments

segment_loop-nil : (fuel : List ℕ) (stack : List (List ℕ)) → segment_loop fuel [] stack ≡ stack
unfolding segment_loop
segment_loop-nil [] stack = refl
segment_loop-nil (f ∷ fuel) stack = refl

segment_loop-step :
    (f : ℕ) (fuel p s rest : List ℕ) (stack : List (List ℕ))
    → take_segment p ≡ (s, rest)
    → 0 < length p
    → Clean s
    → length stack < 32
    → segment_loop (f ∷ fuel) p stack ≡ segment_loop fuel (skip_slashes rest) (s ∷ stack)
segment_loop-step f fuel p s rest stack e filled c high =
    segment_round f fuel p stack filled
    ∙ ap (λ (r : List ℕ × List ℕ). segment_loop fuel (skip_slashes r.1) (add_segment stack r.0)) e
    ∙ ap (λ (r : List (List ℕ)). segment_loop fuel (skip_slashes rest) r)
        (add_segment-push stack s c high)

-- The loop finds again the segments that were joined.
segment_loop-joined :
    (fuel : List ℕ) (segments stack : List (List ℕ))
    → AllClean segments
    → length segments ≤ length fuel
    → length stack + length segments ≤ 32
    → segment_loop fuel (joined segments) stack ≡ push_all stack segments
unfolding joined
segment_loop-joined fuel [] stack h l high = segment_loop-nil fuel stack
segment_loop-joined [] (s ∷ segments) stack h l high = absurd (omega (arith, l))
segment_loop-joined (f ∷ fuel) (s ∷ []) stack h l high =
    segment_loop-step f fuel s s [] stack (take_segment-end s h.0.no_slash) h.0.filled h.0
      (omega (arith, high))
    ∙ ap (λ (r : List ℕ). segment_loop fuel r (s ∷ stack)) skip_slashes-nil
    ∙ segment_loop-nil fuel (s ∷ stack)
segment_loop-joined (f ∷ fuel) (s ∷ t ∷ more) stack h l high =
    segment_loop-step f fuel (s ++ 47 ∷ joined (t ∷ more)) s (47 ∷ joined (t ∷ more)) stack
      (take_segment-slash s (joined (t ∷ more)) h.0.no_slash)
      (omega (arith, h.0.filled, length-append s (47 ∷ joined (t ∷ more)))) h.0
      (omega (arith, high))
    ∙ ap (λ (r : List ℕ). segment_loop fuel r (s ∷ stack))
        (skip_slashes-slash (joined (t ∷ more)) ∙ skip_slashes-joined (t ∷ more) h.1)
    ∙ segment_loop-joined fuel (t ∷ more) (s ∷ stack) h.1 (omega (arith, l)) (omega (arith, high))

in_order-push_all :
    (segments done stack : List (List ℕ))
    → in_order done (push_all stack segments) ≡ in_order (segments ++ done) stack
unfolding in_order
in_order-push_all [] done stack = refl
in_order-push_all (s ∷ segments) done stack = in_order-push_all segments done (s ∷ stack)

length-joined_le :
    (segments : List (List ℕ)) → AllClean segments → length segments ≤ length (joined segments)
unfolding joined
length-joined_le [] h = omega arith
length-joined_le (s ∷ []) h = omega (arith, h.0.filled)
length-joined_le (s ∷ t ∷ more) h =
    omega
      (arith, h.0.filled, length-append s (47 ∷ joined (t ∷ more)), length-joined_le (t ∷ more) h.1)

segments_of-joined :
    (segments : List (List ℕ))
    → AllClean segments
    → length segments ≤ 32
    → segments_of (47 ∷ joined segments) ≡ segments
segments_of-joined segments h high =
    ap (λ (r : List ℕ). in_order [] (segment_loop r r []))
      (skip_slashes-slash (joined segments) ∙ skip_slashes-joined segments h)
    ∙ ap (in_order []) (
        segment_loop-joined (joined segments) segments [] h (length-joined_le segments h)
          (omega (arith, high)))
    ∙ in_order-push_all segments [] []
    ∙ (unfold in_order in append-nil segments)

combine-absolute : (cwd t : List ℕ) → length t ≤ 254 → combine cwd (47 ∷ t) ≡ 47 ∷ t
unfolding combine is_absolute
combine-absolute cwd t l = ap (λ (r : List ℕ). 47 ∷ r) (take-all 254 t l)

-- A path that the function wrote, from an absolute working directory into at least 257 bytes, it
-- writes again unchanged, from any absolute working directory.
pub normalize_path_idem :
    (cwd cwd' input : List ℕ) (out_size : ℕ)
    → is_absolute cwd ≡ true
    → is_absolute cwd' ≡ true
    → 257 ≤ out_size
    → out_size < 2 ^ 64
    → normalize_path cwd' (normalize_path cwd input out_size) out_size
      ≡ normalize_path cwd input out_size
normalize_path_idem cwd cwd' input n a a' l h =
    let segments = segments_of (combine cwd input) in
    let (clean, high, w) = segments_of-Clean (combine cwd input) (combine-Rooted cwd input a) in
    let e = normal_form cwd input n a l h in
    let whole : combine cwd' (47 ∷ joined segments) ≡ 47 ∷ joined segments =
      combine-absolute cwd' (joined segments) (omega (arith, length-joined segments, w)) in
    ap (λ (r : List ℕ). normalize_path cwd' r n) e
    ∙ normal_form cwd' (47 ∷ joined segments) n a' l h
    ∙ ap (λ (r : List ℕ). 47 ∷ joined (segments_of r)) whole
    ∙ ap (λ (r : List (List ℕ)). 47 ∷ joined r) (segments_of-joined segments clean high)
    ∙ sym e
