-- ===== src/Keyboard/Queue.antt =====
-- The ring of src/drivers/keyboard/keyboard.cpp as a queue of at most 255 characters.
use weng_shi_os.Base.{
  ℕ, zero, suc, ◌+◌, ◌-◌, ◌%◌, ◌<◌, ◌≡◌, refl, true, false, not, ◌==◌, ◌||◌, ltb, List, [], ◌∷◌,
  ◌++◌, length, set, get_or, length-set, get_or-set_self, get_or-set_ne, Option, if◌then◌else◌,
  arith, Bool-cases, inl, inr, ◌∙◌, ap, ap₂, subst,
}
use weng_shi_os.Keyboard.{Keyboard, push_char, get_char, caller_is_focused}

pub record IsValid (k : Keyboard) : Type 0 where
  pub size : length k.buffer ≡ 256
  pub head_in : k.head < 256
  pub tail_in : k.tail < 256

-- The `n` characters from place `i` on, round the end.
abbrev pub collect : ℕ → ℕ → List ℕ → List ℕ
collect zero i b = []
collect (suc n) i b = get_or b i 0 ∷ collect n ((i + 1) % 256) b

abbrev pub waiting : Keyboard → ℕ
waiting k = (k.head + 256 - k.tail) % 256

-- The characters that wait to be read, the oldest first.
abbrev pub contents : Keyboard → List ℕ
contents k = collect (waiting k) k.tail k.buffer

-- What a queue of 255 places does with one more character.
abbrev pub offer : List ℕ → ℕ → List ℕ
offer cs c = if ltb (length cs) 255 then cs ++ c ∷ [] else cs

length-collect : (n i : ℕ) (b : List ℕ) → length (collect n i b) ≡ n
length-collect zero i b = refl
length-collect (suc n) i b = ap suc (length-collect n ((i + 1) % 256) b)

turn : (n i : ℕ) → i < 256 → ((i + 1) % 256 + n) % 256 ≡ (i + suc n) % 256
turn n i h = omega arith

collect-set :
    (n i : ℕ) (b : List ℕ) (c : ℕ)
    → i < 256
    → n < 256
    → length b ≡ 256
    → collect (suc n) i (set b ((i + n) % 256) c) ≡ collect n i b ++ c ∷ []
collect-set zero i b c hi hn e = ground (arith, get_or-set_self b i c 0)
collect-set (suc n) i b c hi hn e =
    ap₂ (λ (x : ℕ) (xs : List ℕ). x ∷ xs) (get_or-set_ne b ((i + suc n) % 256) i c 0 (omega arith))
      (subst
        (λ (j : ℕ).
          collect (suc n) ((i + 1) % 256) (set b j c) ≡ collect n ((i + 1) % 256) b ++ c ∷ [])
        (turn n i hi) (collect-set n ((i + 1) % 256) b c (omega arith) (omega arith) e))

push_full : (k : Keyboard) (c : ℕ) → ((k.head + 1) % 256 == k.tail) ≡ true → push_char k c ≡ k
unfolding push_char
push_full k c e = ground (arith, e)

push_room :
    (k : Keyboard) (c : ℕ)
    → ((k.head + 1) % 256 == k.tail) ≡ false
    → push_char k c ≡ record k { buffer = set k.buffer k.head c; head = (k.head + 1) % 256 }
unfolding push_char
push_room k c e = ground (arith, e)

-- `pushChar` puts a character behind those that wait, and drops it when 255 wait; the ring stays
-- valid.
pub push_char-offer :
    (k : Keyboard) (c : ℕ)
    → IsValid k
    → IsValid (push_char k c) × (contents (push_char k c) ≡ offer (contents k) c)
push_char-offer k c v = elim (Bool-cases ((k.head + 1) % 256 == k.tail)) [
  | inl e ↦
      rw (push_full k c e)
        (v, ground (arith, length-collect (waiting k) k.tail k.buffer, v.head_in, v.tail_in, e))
  | inr e ↦ rw (push_room k c e) (
    record {
      size = length-set k.buffer k.head c ∙ v.size;
      head_in = omega arith;
      tail_in = v.tail_in;
    },
    one_more e,
  )
]
  where
    one_more :
        ((k.head + 1) % 256 == k.tail) ≡ false
        → collect (((k.head + 1) % 256 + 256 - k.tail) % 256) k.tail (set k.buffer k.head c)
          ≡ offer (contents k) c
    one_more e =
        let grown : ((k.head + 1) % 256 + 256 - k.tail) % 256 ≡ suc (waiting k) =
          ground (arith, v.head_in, v.tail_in, e) in
        let place : (k.tail + waiting k) % 256 ≡ k.head = ground (arith, v.head_in, v.tail_in) in
        let few : ltb (length (contents k)) 255 ≡ true =
          ground (arith, length-collect (waiting k) k.tail k.buffer, v.head_in, v.tail_in, e) in
        rw (grown, few)
          (subst
            (λ (j : ℕ). collect (suc (waiting k)) k.tail (set k.buffer j c) ≡ contents k ++ c ∷ [])
            place (collect-set (waiting k) k.tail k.buffer c v.tail_in (omega arith) v.size))

-- What a read of the queue answers: nothing for a caller without the focus, or of an empty queue,
-- and else the oldest character, which leaves the queue.
pub data Read (k : Keyboard) (current : Option ℕ) : Type 0 where
  unfocused : caller_is_focused k current ≡ false → get_char k current ≡ (k, 0) → Read k current
  empty : contents k ≡ [] → get_char k current ≡ (k, 0) → Read k current
  oldest :
      (c : ℕ) (cs : List ℕ)
      → caller_is_focused k current ≡ true
      → contents k ≡ c ∷ cs
      → (get_char k current).1 ≡ c
      → contents (get_char k current).0 ≡ cs
      → IsValid (get_char k current).0
      → Read k current

get_nothing :
    (k : Keyboard) (current : Option ℕ)
    → ((k.head == k.tail) || not (caller_is_focused k current)) ≡ true
    → get_char k current ≡ (k, 0)
unfolding get_char
get_nothing k current e = ground (arith, e)

get_something :
    (k : Keyboard) (current : Option ℕ)
    → (k.head == k.tail) ≡ false
    → caller_is_focused k current ≡ true
    → get_char k current ≡ (record k { tail = (k.tail + 1) % 256 }, get_or k.buffer k.tail 0)
unfolding get_char
get_something k current e f = ground (arith, e, f)

-- On a valid ring `getChar` does what `Read` says.
pub get_char-Read : (k : Keyboard) (current : Option ℕ) → IsValid k → Read k current
get_char-Read k current v = elim (Bool-cases (caller_is_focused k current)) [
  | inl f ↦ elim (Bool-cases (k.head == k.tail)) [
    | inl e ↦
        let none_wait : waiting k ≡ 0 = ground (arith, e, v.tail_in) in
        empty (rw none_wait refl) (get_nothing k current (ground (arith, e)))
    | inr e ↦
        let some_wait : waiting k ≡ suc ((k.head + 256 - (k.tail + 1) % 256) % 256) =
          ground (arith, v.head_in, v.tail_in, e) in
        oldest (get_or k.buffer k.tail 0)
          (collect ((k.head + 256 - (k.tail + 1) % 256) % 256) ((k.tail + 1) % 256) k.buffer) f
          (rw some_wait refl) (rw (get_something k current e f) refl)
          (rw (get_something k current e f) refl)
          (rw (get_something k current e f)
            (record { size = v.size; head_in = v.head_in; tail_in = omega arith }))
  ]
  | inr f ↦ unfocused f (get_nothing k current (ground (arith, f)))
]
