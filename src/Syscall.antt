-- ===== src/Syscall.antt =====
-- src/kernel/syscall.cpp: the system calls on descriptors and on the break of a task.
pub mod Pages
pub mod Brk
mod Tests
use weng_shi_os.Base.{
  ℕ, zero, suc, ◌+◌, ◌-◌, ◌*◌, ◌/◌, Bool, true, false, ◌==◌, ◌||◌, ltb, leb, List, [], ◌∷◌, length,
  take, map, Option, none, some, if◌then◌else◌,
}
use weng_shi_os.Base.Int.{ℤ, pos, negsuc}
use weng_shi_os.Base.Word.{add64, sub64, mul64, u64_max}
use weng_shi_os.Vfs.Types.{FilesystemDriver, Vfs}
use weng_shi_os.Vfs.Files.{open_file, write_file, close_file}
use weng_shi_os.Terminal.{Terminal, put_char}
use weng_shi_os.Scheduler.Task.{Task}

abbrev pub fd_offset : ℕ
fd_offset = 3

abbrev pub brk_region_start : ℕ
brk_region_start = 0x50000000000

abbrev pub page_size : ℕ
page_size = 4096

-- The loop that writes a text to the terminal, to its NUL.
unfoldable pub put_text : Terminal → List ℕ → Terminal
unfolding put_char
put_text t [] = t
put_text t (c ∷ s) = elim (c == 0) [ true ↦ t | false ↦ put_text (put_char t c) s ]

-- The user's arguments before the null, of which 16 are kept, and 63 bytes of each.
unfoldable pub copy_user_argv : List (List ℕ) → Option (List (List ℕ))
copy_user_argv args =
    let argv = map (take 63) (take 16 args) in if length argv == 0 then none else some argv

-- The user's descriptors are those of the file system behind the three of the terminal.
module _ {W : Type 0} (drivers : ℕ → FilesystemDriver W) where
  abbrev user_fd : ℤ → ℤ
  user_fd (pos fd) = pos (fd + fd_offset)
  user_fd (negsuc k) = negsuc 0

  unfoldable pub sys_open : Vfs → W → List ℕ → (Vfs × W) × ℤ
  unfolding open_file
  sys_open v w path = let r = open_file drivers v w path in (r.0, user_fd r.1)

  -- `str` has the bytes at the user's pointer, as many as the call names.
  unfoldable pub sys_write : Terminal → Vfs → W → ℤ → List ℕ → (Terminal × Vfs × W) × ℤ
  unfolding put_text write_file
  sys_write t v w fd str =
      let text = take 4096 str in
      elim fd [
        | negsuc k ↦
            let r = write_file drivers v w (negsuc (k + fd_offset)) text in ((t, r.0.0, r.0.1), r.1)
        | pos n ↦
            let r = write_file drivers v w (pos (n - fd_offset)) text in
            if (n == 1) || (n == 2)
            then ((put_text t text, v, w), pos (length text))
            else if n == 0
            then ((t, v, w), negsuc 0)
            else ((t, r.0.0, r.0.1), r.1)
      ]

  unfoldable pub sys_close : Vfs → W → ℤ → (Vfs × W) × ℤ
  unfolding close_file
  sys_close v w (negsuc k) = ((v, w), negsuc 0)
  sys_close v w (pos fd) =
      let r = close_file drivers v w (pos (fd - fd_offset)) in
      if ltb fd fd_offset then ((v, w), negsuc 0) else (r, pos 0)

-- The break of a task that has none yet.
unfoldable pub ready_brk : Task → Task
ready_brk task =
    let start = add64 brk_region_start (mul64 task.id 0x10000000) in
    if task.brk_start == 0 then record task { brk_start = start; brk_current = start } else task

-- `(x + PAGE_SIZE - 1) & ~(PAGE_SIZE - 1)`
unfoldable pub page_end : ℕ → ℕ
page_end x = sub64 (add64 x page_size) 1 / page_size * page_size

-- `alloc` is `allocAndMapPage` for pages of the user that can be written: the new state, and whether
-- it answered a page.
module _ {W : Type 0} (alloc : W → ℕ → W × Bool) where
  -- The loop over the pages, with the rounds left; it ends at the first one that fails.
  unfoldable pub map_pages : ℕ → W → ℕ → W × Bool
  map_pages zero w addr = (w, true)
  map_pages (suc n) w addr =
      let r = alloc w addr in
      elim r.1 [ true ↦ map_pages n r.0 (addr + page_size) | false ↦ (r.0, false) ]

  -- What `sysBrk` does for a task: the new state, the task and the break that is answered.
  unfoldable pub brk_of : W → Task → ℕ → W × Task × ℕ
  unfolding ready_brk page_end map_pages
  brk_of w old requested =
      let task = ready_brk old in
      let rounds = (page_end requested - page_end (Task.brk_current task)) / page_size in
      let r = map_pages rounds w (page_end (Task.brk_current task)) in
      if leb requested (Task.brk_current task) then (w, task, task.brk_current) else elim r.1 [
        | true ↦ (r.0, record task { brk_current = requested }, requested)
        | false ↦ (r.0, task, task.brk_current)
      ]

  -- The answer is a word: without a current task it is -1, all ones.
  unfoldable pub sys_brk : W → Option Task → ℕ → W × Option Task × ℕ
  sys_brk w none requested = (w, none, u64_max)
  sys_brk w (some old) requested = let r = brk_of w old requested in (r.0, some r.1, r.2)
