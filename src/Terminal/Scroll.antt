-- ===== src/Terminal/Scroll.antt =====
-- What the copying loops of src/drivers/vga/terminal.cpp leave in the cells of the screen.
use weng_shi_os.Base.{ℕ, zero, suc, ◌+◌, ◌-◌, ◌*◌, ◌≤◌, ◌≡◌, ◌&&◌, ltb, leb, if◌then◌else◌, arith}
use weng_shi_os.Base.Mem.{Mem, poke}
use weng_shi_os.Terminal.{Terminal, vga_entry, blank_cells, copy_cells, copy_rows, scroll}

blank_cells_lem :
    (n y x color : ℕ) (b : Mem) (q : ℕ)
    → blank_cells n y x color b q
      ≡ (if leb (y * 80 + x) q && ltb q (y * 80 + x + n) then vga_entry 32 color else b q)
unfolding blank_cells
blank_cells_lem zero y x color b q = ground arith
blank_cells_lem (suc n) y x color b q =
    ground (arith, blank_cells_lem n y (x + 1) color (poke b (y * 80 + x) (vga_entry 32 color)) q)

copy_cells_lem :
    (n y x : ℕ) (b : Mem) (q : ℕ)
    → 1 ≤ y
    → x + n ≤ 80
    → copy_cells n y x b q
      ≡ (if leb ((y - 1) * 80 + x) q && ltb q ((y - 1) * 80 + x + n) then b (q + 80) else b q)
unfolding copy_cells
copy_cells_lem zero y x b q hy hx = ground arith
copy_cells_lem (suc n) y x b q hy hx = ground (
  arith,
  copy_cells_lem n y (x + 1) (poke b ((y - 1) * 80 + x) (b (y * 80 + x))) q hy (omega arith),
)

copy_rows_lem :
    (n y : ℕ) (b : Mem) (q : ℕ)
    → 1 ≤ y
    → copy_rows n y b q
      ≡ (if leb ((y - 1) * 80) q && ltb q ((y - 1) * 80 + n * 80) then b (q + 80) else b q)
unfolding copy_rows
copy_rows_lem zero y b q hy = ground arith
copy_rows_lem (suc n) y b q hy = ground (
  arith,
  copy_rows_lem n (y + 1) (copy_cells 80 y 0 b) q (omega arith),
  copy_cells_lem 80 y 0 b q hy (omega arith),
  copy_cells_lem 80 y 0 b (q + 80) hy (omega arith),
)

-- The screen moved up by a row, over cells `0` to `1919`.
abbrev pub moved_up : Mem → ℕ → Mem
moved_up b color q =
    if ltb q 1840 then b (q + 80) else if ltb q 1920 then vga_entry 32 color else b q

pub scroll_lem : (t : Terminal) (q : ℕ) → (scroll t).buffer q ≡ moved_up t.buffer t.color q
unfolding scroll
scroll_lem t q = ground (
  arith,
  blank_cells_lem 80 23 0 t.color (copy_rows 23 1 t.buffer) q,
  copy_rows_lem 23 1 t.buffer q (omega arith),
)
