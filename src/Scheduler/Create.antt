-- ===== src/Scheduler/Create.antt =====
-- `init`, `createTask` and `start` of src/shed/scheduler.cpp.
use weng_shi_os.Base.{
  ℕ, ◌-◌, ◌*◌, ◌%◌, true, false, ◌||◌, ◌==◌, [], ◌∷◌, ◌++◌, length, set, Option, none, some,
  if◌then◌else◌,
}
use weng_shi_os.Base.Int.{pos}
use weng_shi_os.Base.Word.{add64, sub64, add32}
use weng_shi_os.Scheduler.Task.{ready, running, Task, Frame, Sched, task_at, set_state}

-- The initial values of the variables; what lies outside the scheduler is kept.
unfoldable pub init : Sched → Sched
init s = record s {
  current = none;
  tail = none;
  tasks = [];
  next_id = 1;
  started = false;
  pending_cleanup = [];
}

abbrev pub sizeof_registers : ℕ
sizeof_registers = 22 * 8

-- `x & ~0xF`
abbrev pub align_down16 : ℕ → ℕ
align_down16 x = x - x % 16

-- The task that `createTask` fills in, all but its place in the ring.
abbrev pub new_task : Sched → ℕ → ℕ → ℕ → ℕ → Task
new_task s stack kstack plm4 stack_size = record {
  rsp = align_down16 (sub64 (add64 stack stack_size) sizeof_registers);
  id = s.next_id;
  state = ready;
  stack_base = stack;
  kernel_stack_top = align_down16 (add64 kstack stack_size);
  brk_start = 0;
  brk_current = 0;
  exit_code = pos 0;
  waiting_parent = none;
  plm4_phys = plm4;
  next = 0;
}

abbrev pub new_frame : ℕ → ℕ → Frame
new_frame at entry = record { at = at; rip = entry; cs = 0x08; rflags = 0x202; rsp = at; ss = 0x10 }

-- Into the ring, behind the tail.
unfoldable pub link_task : Sched → Task → Sched
link_task s t = elim s.tail [
  | none ↦ record s {
    tasks = s.tasks ++ record t { next = length s.tasks } ∷ [];
    tail = some (length s.tasks);
  }
  | some tail ↦
      let old = task_at s.tasks tail in
      record s {
        tasks =
            set s.tasks tail (record old { next = length s.tasks })
            ++ record t { next = old.next } ∷ [];
        tail = some (length s.tasks);
      }
]

-- `task`, `stack` and `kstack` are what the three calls of kmalloc returned, and `plm4` what
-- `VMM::createAddressSpace` returned; 0 is failure.
unfoldable pub create_task : Sched → ℕ → ℕ → ℕ → ℕ → ℕ → ℕ → Sched × Option ℕ
unfolding link_task
create_task s entry stack_size task stack kstack plm4 =
    if task == 0 || (stack == 0 || kstack == 0)
    then (s, none)
    else if plm4 == 0
    then (s, none)
    else let t = new_task s stack kstack plm4 stack_size in
      let linked = link_task s t in
      (
        record linked { next_id = add32 s.next_id 1; frames = new_frame t.rsp entry ∷ s.frames },
        some (length s.tasks),
      )

-- Up to `scheduler_enter`, which takes the second part and does not return. A ring without tasks is a null dereference.
unfoldable pub start : Sched → Option (Sched × ℕ)
start s = elim s.tail [
  | none ↦ none
  | some tail ↦
      let first = (task_at s.tasks tail).next in
      some (
        record s {
          current = some first;
          tasks = set_state s.tasks first running;
          started = true;
          kernel_stack = (task_at s.tasks first).kernel_stack_top;
          address_space = (task_at s.tasks first).plm4_phys;
        },
        (task_at s.tasks first).rsp,
      )
]
