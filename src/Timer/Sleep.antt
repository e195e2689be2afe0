-- ===== src/Timer/Sleep.antt =====
-- When the sleeps of src/arch/x86_64/timer.cpp end.
use weng_shi_os.Base.{
  ℕ, zero, suc, ◌+◌, ◌^◌, ◌<◌, ◌≤◌, ◌≡◌, true, false, ltb, some, arith, Bool-cases, inl, inr,
  dec_lt, ◌∙◌, ap, ltb→lt,
}
use weng_shi_os.Base.Word.{add64}
use weng_shi_os.Timer.{poll_loop, sleep_ticks}

-- The first poll from `i` on that is past the deadline.
pub record FirstPast (polls : ℕ → ℕ) (i deadline j : ℕ) : Type 0 where
  pub after : i ≤ j
  pub past : deadline < polls j
  pub before : (k : ℕ) → i ≤ k → k < j → polls k ≤ deadline

poll_ends :
    (fuel : ℕ) (polls : ℕ → ℕ) (i deadline : ℕ)
    → ltb deadline (polls i) ≡ true
    → poll_loop (suc fuel) polls i deadline ≡ some i
unfolding poll_loop
poll_ends fuel polls i deadline e = ground (arith, e)

poll_goes_on :
    (fuel : ℕ) (polls : ℕ → ℕ) (i deadline : ℕ)
    → ltb deadline (polls i) ≡ false
    → poll_loop (suc fuel) polls i deadline ≡ poll_loop fuel polls (i + 1) deadline
unfolding poll_loop
poll_goes_on fuel polls i deadline e = ground (arith, e)

poll_loop-FirstPast :
    (fuel : ℕ) (polls : ℕ → ℕ) (i deadline k : ℕ)
    → i ≤ k
    → k < i + fuel
    → deadline < polls k
    → (j : ℕ) × (poll_loop fuel polls i deadline ≡ some j) × FirstPast polls i deadline j
poll_loop-FirstPast zero polls i deadline k h l p = absurd (omega (arith, h, l))
poll_loop-FirstPast (suc fuel) polls i deadline k h l p =
    elim (Bool-cases (ltb deadline (polls i))) [
      | inl e ↦ (
        i,
        poll_ends fuel polls i deadline e,
        record {
          after = omega arith;
          past = ltb→lt _ _ e;
          before = λ m a b. absurd (omega (arith, a, b));
        },
      )
      | inr e ↦
          let later : i + 1 ≤ k = elim (dec_lt i k) [
            | yes y ↦ omega (arith, y)
            | no n ↦ let same : k ≡ i = omega (arith, n, h) in absurd (ground (arith, e, p, same))
          ] in
          let (j, r, f) =
            poll_loop-FirstPast fuel polls (i + 1) deadline k later (omega (arith, l)) p in
          (
            j,
            poll_goes_on fuel polls i deadline e ∙ r,
            record {
              after = omega (arith, f.after);
              past = f.past;
              before = λ m a b. elim (dec_lt i m) [
                | yes y ↦ f.before m (omega (arith, y)) b
                | no n ↦ let same : m ≡ i = omega (arith, n, a) in ground (arith, e, same)
              ];
            },
          )
    ]

-- If some poll shows more than `ticks` interrupts since the call, and the counter does not wrap,
-- then `sleepTicks`, given fuel for that many polls, returns, at the first such poll.
pub sleep_ticks-FirstPast :
    (fuel : ℕ) (polls : ℕ → ℕ) (ticks k : ℕ)
    → polls 0 + ticks < 2 ^ 64
    → 1 ≤ k
    → k ≤ fuel
    → polls 0 + ticks < polls k
    → (j : ℕ) × (sleep_ticks fuel polls ticks ≡ some j) × FirstPast polls 1 (polls 0 + ticks) j
unfolding sleep_ticks
sleep_ticks-FirstPast fuel polls ticks k small h l p =
    let exact : add64 (polls 0) ticks ≡ polls 0 + ticks = omega (arith, small) in
    let (j, r, f) = poll_loop-FirstPast fuel polls 1 (polls 0 + ticks) k h (omega (arith, l)) p in
    (j, ap (poll_loop fuel polls 1) exact ∙ r, f)
