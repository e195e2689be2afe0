-- ===== src/Vfs/Normalize.antt =====
-- `normalizePath` of src/fs/vfs.cpp. The segments found so far are a stack, the last one first.
use weng_shi_os.Base.{
  ℕ, ◌+◌, ◌-◌, Bool, false, ◌==◌, ◌&&◌, ltb, List, [], ◌∷◌, ◌++◌, length, take, drop, get_or,
  if◌then◌else◌,
}
use weng_shi_os.Base.Word.{sub64}

-- `input[0] == '/'`
unfoldable pub is_absolute : List ℕ → Bool
is_absolute input = get_or input 0 0 == 47

unfoldable pub ends_in_slash : List ℕ → Bool
ends_in_slash [] = false
ends_in_slash (c ∷ s) = elim s [ [] ↦ c == 47 | d ∷ t ↦ ends_in_slash s ]

-- The text in `combined`, whose 256 bytes end with the NUL.
unfoldable pub combine : List ℕ → List ℕ → List ℕ
combine cwd input =
    if is_absolute input
    then 47 ∷ take 254 (drop 1 input)
    else let start = take 254 cwd in
      let base = if ends_in_slash start then start else start ++ 47 ∷ [] in
      base ++ take (255 - length base) input

-- `while (*p == '/') ++p;`
unfoldable pub skip_slashes : List ℕ → List ℕ
skip_slashes [] = []
skip_slashes (c ∷ s) = let rest = skip_slashes s in if c == 47 then rest else c ∷ s

-- `while (*p != '\0' && *p != '/') ++p;`: the segment that is passed, and where `p` ends.
unfoldable pub take_segment : List ℕ → List ℕ × List ℕ
take_segment [] = ([], [])
take_segment (c ∷ s) =
    let (segment, rest) = take_segment s in if c == 47 then ([], c ∷ s) else (c ∷ segment, rest)

unfoldable pub is_dot : List ℕ → Bool
is_dot s = (length s == 1) && (get_or s 0 0 == 46)

unfoldable pub is_dot_dot : List ℕ → Bool
is_dot_dot s = (length s == 2) && ((get_or s 0 0 == 46) && (get_or s 1 0 == 46))

unfoldable pub add_segment : List (List ℕ) → List ℕ → List (List ℕ)
add_segment stack s =
    if length s == 0
    then stack
    else if is_dot s
    then stack
    else if is_dot_dot s
    then drop 1 stack
    else if ltb (length stack) 32
    then take 63 s ∷ stack
    else stack

-- A round for each segment. The text is the fuel: a round takes at least one byte of it.
unfoldable pub segment_loop : List ℕ → List ℕ → List (List ℕ) → List (List ℕ)
segment_loop [] p stack = stack
segment_loop (f ∷ fuel) [] stack = stack
segment_loop (f ∷ fuel) (c ∷ s) stack =
    let (segment, rest) = take_segment (c ∷ s) in
    segment_loop fuel (skip_slashes rest) (add_segment stack segment)

-- The loop that writes the segments, with the bytes written so far. A slash is written without a
-- test of the room.
unfoldable pub write_segments : ℕ → ℕ → List (List ℕ) → List ℕ
write_segments out_size oi [] = []
write_segments out_size oi (s ∷ segments) =
    let copied = take (sub64 out_size 2 - oi) s in
    elim segments [
      | [] ↦ copied
      | t ∷ more ↦ copied ++ 47 ∷ write_segments out_size (oi + length copied + 1) segments
    ]

unfoldable pub in_order : List (List ℕ) → List (List ℕ) → List (List ℕ)
in_order done [] = done
in_order done (s ∷ stack) = in_order (s ∷ done) stack

unfoldable pub normalize_path : List ℕ → List ℕ → ℕ → List ℕ
normalize_path cwd input out_size =
    let combined = skip_slashes (combine cwd input) in
    let segments = in_order [] (segment_loop combined combined []) in
    47 ∷ write_segments out_size 1 segments
