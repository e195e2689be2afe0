-- ===== src/Timer/Tests.antt =====
-- The law of src/arch/x86_64/timer.cpp at a counter that each poll finds one higher.
use weng_shi_os.Base.{ℕ, ◌+◌, ◌≡◌, some, arith}
use weng_shi_os.Timer.{sleep_ticks}
use weng_shi_os.Timer.Sleep.{FirstPast, sleep_ticks-FirstPast}

abbrev steady : ℕ → ℕ
steady i = 100 + i

sleep_ticks-FirstPast_example :
    (j : ℕ) × (sleep_ticks 10 steady 5 ≡ some j) × FirstPast steady 1 105 j
sleep_ticks-FirstPast_example =
    sleep_ticks-FirstPast 10 steady 5 6 (omega arith) (omega arith) (omega arith) (omega arith)
