-- ===== src/Scheduler/Task.antt =====
-- The data of src/shed/scheduler.h and scheduler.cpp. A `Task *` is the task's place in the order of
-- creation; tasks are never released. What the calls do outside the scheduler (kfree, cr3, the TSS,
-- the keyboard's focus, the words of a new task's first frame) is recorded in the state.
use weng_shi_os.Base.{ℕ, Bool, true, false, List, set, get_or, Option, none}
use weng_shi_os.Base.Int.{ℤ, pos}

pub data TaskState : Type 0 where
  ready running blocked terminated : TaskState

-- A null pointer in `stack_base` is 0, in `waiting_parent` it is `none`.
pub record Task : Type 0 where
  pub rsp : ℕ
  pub id : ℕ
  pub state : TaskState
  pub stack_base : ℕ
  pub kernel_stack_top : ℕ
  pub brk_start : ℕ
  pub brk_current : ℕ
  pub exit_code : ℤ
  pub waiting_parent : Option ℕ
  pub plm4_phys : ℕ
  pub next : ℕ

-- The words of the first `Registers` frame that are not zero.
pub record Frame : Type 0 where
  pub at : ℕ
  pub rip : ℕ
  pub cs : ℕ
  pub rflags : ℕ
  pub rsp : ℕ
  pub ss : ℕ

pub record Sched : Type 0 where
  pub tasks : List Task
  pub current : Option ℕ
  pub tail : Option ℕ
  pub next_id : ℕ
  pub started : Bool
  pub pending_cleanup : List ℕ
  pub next_task_rsp : ℕ
  pub kernel_stack : ℕ
  pub address_space : ℕ
  pub focus : ℕ
  pub freed : List ℕ
  pub frames : List Frame

abbrev pub max_pending_cleanup : ℕ
max_pending_cleanup = 8

abbrev pub no_task : Task
no_task = record {
  rsp = 0;
  id = 0;
  state = terminated;
  stack_base = 0;
  kernel_stack_top = 0;
  brk_start = 0;
  brk_current = 0;
  exit_code = pos 0;
  waiting_parent = none;
  plm4_phys = 0;
  next = 0;
}

-- Reading and writing through a `Task *`.
abbrev pub task_at : List Task → ℕ → Task
task_at ts i = get_or ts i no_task

abbrev pub is_ready : TaskState → Bool
is_ready ready = true
is_ready _ = false

abbrev pub is_running : TaskState → Bool
is_running running = true
is_running _ = false

abbrev pub is_blocked : TaskState → Bool
is_blocked blocked = true
is_blocked _ = false

abbrev pub is_terminated : TaskState → Bool
is_terminated terminated = true
is_terminated _ = false

abbrev pub with_state : Task → TaskState → Task
with_state t s = record t { state = s }

abbrev pub set_state : List Task → ℕ → TaskState → List Task
set_state ts i s = set ts i (with_state (task_at ts i) s)
