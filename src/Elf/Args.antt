-- ===== src/Elf/Args.antt =====
-- Where `setupArgs` of src/file_formats/elf/elf.cpp puts the arguments of a program.
use weng_shi_os.Base.{
  ℕ, suc, ◌+◌, ◌*◌, ◌/◌, ◌%◌, ◌^◌, ◌≤◌, ◌<◌, ◌≡◌, ◌⊎◌, List, [], ◌∷◌, ◌++◌, length, take,
  length-append, arith, refl, ap, ◌∙◌, inl, inr,
}
use weng_shi_os.Base.Word.{sub64}
use weng_shi_os.Base.Mem.{Mem, poke}
use weng_shi_os.Elf.{max_args, put_bytes, Pushed, push_args, array_bytes, setup_args}

-- The bytes stand at `p`.
abbrev pub HasBytes : Mem → ℕ → List ℕ → Type 0
HasBytes m p [] = Unit
HasBytes m p (b ∷ bytes) = (m p ≡ b) × HasBytes m (p + 1) bytes

bytes_stay :
    (m n : Mem) (p : ℕ) (bytes : List ℕ)
    → ((q : ℕ) → p ≤ q → q < p + length bytes → n q ≡ m q)
    → HasBytes m p bytes
    → HasBytes n p bytes
bytes_stay m n p [] h b = tt
bytes_stay m n p (x ∷ bytes) h b = (
  h p (omega arith) (omega arith) ∙ b.0,
  bytes_stay m n (p + 1) bytes (λ q lo hi. h q (omega arith) (omega arith)) b.1,
)

put_bytes-out :
    (m : Mem) (p : ℕ) (bytes : List ℕ) (q : ℕ)
    → (q < p) ⊎ (p + length bytes ≤ q)
    → put_bytes m p bytes q ≡ m q
unfolding put_bytes
put_bytes-out m p [] q h = refl
put_bytes-out m p (b ∷ bytes) q h =
    put_bytes-out (poke m p b) (p + 1) bytes q (ground (arith, h)) ∙ ground (arith, h)

put_bytes-HasBytes : (m : Mem) (p : ℕ) (bytes : List ℕ) → HasBytes (put_bytes m p bytes) p bytes
unfolding put_bytes
put_bytes-HasBytes m p [] = tt
put_bytes-HasBytes m p (b ∷ bytes) = (
  put_bytes-out (poke m p b) (p + 1) bytes p (inl (omega arith)) ∙ ground arith,
  put_bytes-HasBytes (poke m p b) (p + 1) bytes,
)

-- Outside a range is outside of one within it.
outer : (a b q lo hi : ℕ) → lo ≤ a → b ≤ hi → (q < lo) ⊎ (hi ≤ q) → (q < a) ⊎ (b ≤ q)
outer a b q lo hi l h (inl o) = inl (omega arith)
outer a b q lo hi l h (inr o) = inr (omega arith)

-- The bytes that the arguments take with their NULs.
abbrev pub args_size : List (List ℕ) → ℕ
args_size [] = 0
args_size (arg ∷ args) = length arg + 1 + args_size args

-- Each argument stands at its address, between `lo` and `hi`, with its NUL.
abbrev pub Placed : Mem → ℕ → ℕ → List ℕ → List (List ℕ) → Type 0
Placed m lo hi [] [] = Unit
Placed m lo hi [] (arg ∷ args) = ⊥
Placed m lo hi (a ∷ addrs) [] = ⊥
Placed m lo hi (a ∷ addrs) (arg ∷ args) =
    HasBytes m a (arg ++ 0 ∷ []) × (lo ≤ a) × (a + length arg + 1 ≤ hi) × Placed m lo hi addrs args

arguments_stay :
    (m n : Mem) (lo lo' hi : ℕ) (addrs : List ℕ) (args : List (List ℕ))
    → lo' ≤ lo
    → ((q : ℕ) → lo ≤ q → q < hi → n q ≡ m q)
    → Placed m lo hi addrs args
    → Placed n lo' hi addrs args
arguments_stay m n lo lo' hi [] [] l h p = tt
arguments_stay m n lo lo' hi [] (arg ∷ args) l h p = p
arguments_stay m n lo lo' hi (a ∷ addrs) [] l h p = p
arguments_stay m n lo lo' hi (a ∷ addrs) (arg ∷ args) l h p = (
  bytes_stay m n a (arg ++ 0 ∷ [])
      (λ q b e. h q (omega (arith, p)) (omega (arith, p, length-append arg (0 ∷ [])))) p.0,
  omega (arith, p),
  p.2,
  arguments_stay m n lo lo' hi addrs args l h p.3,
)

-- What the loop over the arguments leaves.
pub record IsPushed (m : Mem) (top : ℕ) (args : List (List ℕ)) (r : Pushed) : Type 0 where
  pub down : r.sp + args_size args ≡ top
  pub placed : Placed r.mem r.sp top r.addrs args
  pub counted : length r.addrs ≡ length args
  pub kept : (q : ℕ) → (q < r.sp) ⊎ (top ≤ q) → r.mem q ≡ m q

push_args-IsPushed :
    (m : Mem) (top : ℕ) (args : List (List ℕ))
    → args_size args ≤ top
    → top < 2 ^ 64
    → IsPushed m top args (push_args m top args)
unfolding push_args
push_args-IsPushed m top [] h small = record {
  down = omega arith;
  placed = tt;
  counted = refl;
  kept = λ q o. refl;
}
push_args-IsPushed m top (arg ∷ args) h small =
    let r = push_args m top args in
    let v = push_args-IsPushed m top args (omega (arith, h)) small in
    let sp = sub64 r.sp (length arg + 1) in
    let down : sp + (length arg + 1) ≡ r.sp = omega (arith, h, small, v.down) in
    let size : length (arg ++ 0 ∷ []) ≡ length arg + 1 = length-append arg (0 ∷ []) in
    record {
      down = omega (arith, down, v.down);
      placed = (
        put_bytes-HasBytes r.mem sp (arg ++ 0 ∷ []),
        omega arith,
        omega (arith, down, v.down),
        arguments_stay r.mem (put_bytes r.mem sp (arg ++ 0 ∷ [])) r.sp sp top r.addrs args
            (omega (arith, down))
            (λ q lo hi.
              put_bytes-out r.mem sp (arg ++ 0 ∷ []) q (inr (omega (arith, size, down, lo))))
            v.placed,
      );
      counted = ap suc v.counted;
      kept = λ q o.
          put_bytes-out r.mem sp (arg ++ 0 ∷ []) q (
            outer sp (sp + length (arg ++ 0 ∷ [])) q sp top (omega arith)
              (omega (arith, size, down, v.down)) o)
          ∙ v.kept q (outer r.sp top q sp top (omega (arith, down)) (omega arith) o);
    }

length-array_bytes : (addrs : List ℕ) → length (array_bytes addrs) ≡ (length addrs + 1) * 8
unfolding array_bytes
length-array_bytes [] = refl
length-array_bytes (a ∷ addrs) = omega (arith, length-array_bytes addrs)

-- The stack of a program that starts with the arguments: the array of their addresses, ended by a
-- null, and above it the arguments. Nothing below the array and at the top or above is written.
pub record IsLaid (m : Mem) (top : ℕ) (args : List (List ℕ)) (r : Mem × ℕ × ℕ) : Type 0 where
  pub addrs : List ℕ
  pub counted : length addrs ≡ length args
  pub array : HasBytes r.0 r.2 (array_bytes addrs)
  pub placed : Placed r.0 (r.2 + (length args + 1) * 8) top addrs args
  pub kept : (q : ℕ) → (q < r.2) ⊎ (top ≤ q) → r.0 q ≡ m q
  pub array_aligned : r.2 % 8 ≡ 0
  pub stack_aligned : r.1 % 16 ≡ 0
  pub below : r.1 ≤ r.2
  pub near : r.2 ≤ r.1 + 15
  pub bounded : top ≤ r.1 + args_size args + (length args + 1) * 8 + 22

-- For a top of the stack with enough room below it, the first 16 arguments stand with their NULs
-- between the array and the top, the array holds their addresses in order and a null, it is
-- aligned to 8 bytes and the stack pointer, at or at most 15 bytes below it, to 16, nothing else is
-- written, and no more of the stack is taken than that needs.
pub setup_args-IsLaid :
    (m : Mem) (top : ℕ) (argv : List (List ℕ))
    → args_size (take max_args argv) + (length (take max_args argv) + 1) * 8 + 8 ≤ top
    → top < 2 ^ 64
    → IsLaid m top (take max_args argv) (setup_args m top argv)
unfolding setup_args
setup_args-IsLaid m top argv room small =
    let args = take max_args argv in
    let r = push_args m top args in
    let v = push_args-IsPushed m top args (omega (arith, room)) small in
    let array = sub64 (Pushed.sp r / 8 * 8) ((length args + 1) * 8) in
    let at : array + (length args + 1) * 8 ≡ Pushed.sp r / 8 * 8 =
      omega (arith, room, small, v.down) in
    let size : length (array_bytes r.addrs) ≡ (length args + 1) * 8 =
      length-array_bytes r.addrs ∙ ap (λ (n : ℕ). (n + 1) * 8) v.counted in
    record {
      addrs = r.addrs;
      counted = v.counted;
      array = put_bytes-HasBytes r.mem array (array_bytes r.addrs);
      placed =
          arguments_stay r.mem (put_bytes r.mem array (array_bytes r.addrs)) r.sp
            (array + (length args + 1) * 8) top r.addrs args (omega (arith, at))
            (λ q lo hi.
              put_bytes-out r.mem array (array_bytes r.addrs) q (inr (omega (arith, at, size, lo))))
            v.placed;
      kept = λ q o.
          put_bytes-out r.mem array (array_bytes r.addrs) q (
            outer array (array + length (array_bytes r.addrs)) q array top (omega arith)
              (omega (arith, at, size, v.down)) o)
          ∙ v.kept q (outer r.sp top q array top (omega (arith, at)) (omega arith) o);
      array_aligned = omega (arith, at);
      stack_aligned = omega arith;
      near = omega arith;
      below = omega arith;
      bounded = omega (arith, at, v.down);
    }
