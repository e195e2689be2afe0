-- ===== src/Syscall/Tests.antt =====
-- The laws of the system calls at concrete inputs.
use weng_shi_os.Base.{
  ℕ, ◌≡◌, ◌⊎◌, inl, inr, Bool, true, List, [], ◌∷◌, none, some, arith, ◌-◌, ◌^◌, refl,
}
use weng_shi_os.Base.Int.{pos}
use weng_shi_os.Scheduler.Task.{Task, running}
use weng_shi_os.Syscall.{sys_brk}
use weng_shi_os.Syscall.Pages.{Maps}
use weng_shi_os.Syscall.Brk.{BrkAnswer, sys_brk-BrkAnswer}

abbrev sample_task : Task
sample_task = record {
  rsp = 0;
  id = 3;
  state = running;
  stack_base = 0;
  kernel_stack_top = 0;
  brk_start = 0;
  brk_current = 0;
  exit_code = pos 0;
  waiting_parent = none;
  plm4_phys = 0;
  next = 0;
}

-- The state is the list of the pages that were mapped.
abbrev alloc_page : List ℕ → ℕ → List ℕ × Bool
alloc_page pages a = (a ∷ pages, true)

abbrev IsListed : List ℕ → ℕ → Type 0
IsListed [] p = ⊥
IsListed (a ∷ pages) p = (a ≡ p) ⊎ IsListed pages p

listing : Maps alloc_page IsListed
listing = record { stays = λ w a p h. inr h; here = λ w a e. inl refl }

sys_brk-BrkAnswer_example :
    (sys_brk alloc_page [] none 0x50030002345 ≡ ([], none, 2 ^ 64 - 1))
    × ((r : List ℕ × Task × ℕ) × (sys_brk alloc_page [] (some sample_task) 0x50030002345
          ≡ (r.0, some r.1, r.2))
        × BrkAnswer alloc_page IsListed listing [] sample_task 0x50030002345 r)
sys_brk-BrkAnswer_example =
    sys_brk-BrkAnswer alloc_page IsListed listing [] sample_task 0x50030002345 (omega arith)
      (omega arith) (inl refl)
