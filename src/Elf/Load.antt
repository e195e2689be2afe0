-- ===== src/Elf/Load.antt =====
-- `load` of src/file_formats/elf/elf.cpp over the calls that it makes. The messages on the terminal
-- and kfree, of a buffer that the call took itself, are left out.
use Prim.Native.Nat.{bit_and}
use weng_shi_os.Base.{
  ℕ, zero, suc, ◌+◌, ◌-◌, ◌*◌, ◌/◌, Bool, true, false, not, ◌==◌, ◌&&◌, List, [], ◌++◌, take, drop,
  get_or, replicate, Option, none, some, if◌then◌else◌,
}
use weng_shi_os.Base.Int.{ℤ, pos, negsuc}
use weng_shi_os.Base.Word.{add64, sub64}
use weng_shi_os.Base.Mem.{Mem}
use weng_shi_os.Ext2.Bytes.{field}
use weng_shi_os.Elf.{Ehdr, ehdr_of, put_bytes, setup_args}

pub record Phdr : Type 0 where
  pub p_type : ℕ
  pub p_flags : ℕ
  pub p_offset : ℕ
  pub p_vaddr : ℕ
  pub p_paddr : ℕ
  pub p_filesz : ℕ
  pub p_memsz : ℕ
  pub p_align : ℕ

unfoldable pub phdr_of : List ℕ → Phdr
phdr_of b = record {
  p_type = field 0 4 b;
  p_flags = field 4 4 b;
  p_offset = field 8 8 b;
  p_vaddr = field 16 8 b;
  p_paddr = field 24 8 b;
  p_filesz = field 32 8 b;
  p_memsz = field 40 8 b;
  p_align = field 48 8 b;
}

abbrev pub user_stack_top : ℕ
user_stack_top = 0x7FFFFFFFF000

abbrev pub page_size : ℕ
page_size = 4096

-- The calls of the loader over the state `W` behind them. A read answers the bytes and its result;
-- the address space in use is a part of the state.
pub record System (W : Type 0) : Type 0 where
  pub open_file : W → List ℕ → W × Option ℕ
  pub read : W → ℕ → ℕ → W × List ℕ × ℤ
  pub seek : W → ℕ → ℕ → W
  pub close_file : W → ℕ → W
  pub kmalloc : W → ℕ → Bool
  pub alloc_and_map_page : W → ℕ → ℕ → W
  pub memory : W → Mem
  pub set_memory : W → Mem → W

-- The out parameters and the result.
pub record Started : Type 0 where
  pub entry : ℕ
  pub stack_top : ℕ
  pub argv_user_ptr : ℕ

-- The tests of the header, in their order.
unfoldable pub is_loadable : Ehdr → Bool
is_loadable h =
    (get_or h.e_ident 0 0 == 0x7F)
    && (get_or h.e_ident 1 0 == 69)
    && (get_or h.e_ident 2 0 == 76)
    && (get_or h.e_ident 3 0 == 70)
    && (get_or h.e_ident 4 0 == 2)
    && (get_or h.e_ident 5 0 == 1)
    && (h.e_machine == 62)
    && (h.e_type == 2)
    && not (h.e_phnum == 0)
    && (h.e_phentsize == 56)

module _ {W : Type 0} (sys : System W) where
  -- The loop of `readFully`, with the bytes still wanted; a round brings at least one, so that as many
  -- rounds as bytes are enough. It answers the bytes it got and whether they are all.
  unfoldable pub read_fully : ℕ → W → ℕ → ℕ → List ℕ → W × List ℕ × Bool
  read_fully zero w fd left got = (w, got, true)
  read_fully (suc n) w fd left got =
      let r = sys.read w fd left in
      elim (left == 0) [
        | true ↦ (w, got, true)
        | false ↦ elim r.2 [
          | negsuc k ↦ (r.0, got, false)
          | pos zero ↦ (r.0, got, false)
          | pos (suc k) ↦ read_fully n r.0 fd (left - suc k) (got ++ take (suc k) r.1)
        ]
      ]

  -- The pages from an address on, with the rounds left.
  unfoldable pub map_range : ℕ → W → ℕ → ℕ → W
  map_range zero w addr flags = w
  map_range (suc n) w addr flags =
      map_range n (sys.alloc_and_map_page w addr flags) (addr + page_size) flags

  unfoldable pub store : W → ℕ → List ℕ → W
  unfolding put_bytes
  store w addr bytes = sys.set_memory w (put_bytes (sys.memory w) addr bytes)

  -- The data of a segment: whether all of it came.
  unfoldable pub load_data : W → ℕ → Phdr → W × Bool
  unfolding read_fully store
  load_data w fd ph =
      let r = read_fully ph.p_filesz (sys.seek w fd ph.p_offset) fd ph.p_filesz [] in
      if ph.p_filesz == 0 then (w, true) else (store r.0 ph.p_vaddr r.1, r.2)

  -- One round of the loop over the program headers.
  unfoldable pub load_segment : W → ℕ → Phdr → W × Bool
  unfolding map_range store load_data
  load_segment w fd ph =
      let seg_start = ph.p_vaddr / page_size * page_size in
      let seg_end =
        sub64 (add64 (add64 ph.p_vaddr ph.p_memsz) page_size) 1 / page_size * page_size in
      let flags = if bit_and ph.p_flags 2 == 0 then 4 else 6 in
      let mapped = map_range ((seg_end - seg_start) / page_size) w seg_start flags in
      if ph.p_type == 1
      then load_data (store mapped seg_start (replicate (sub64 seg_end seg_start) 0)) fd ph
      else (w, true)

  unfoldable pub load_segments : ℕ → W → ℕ → List ℕ → W × Bool
  unfolding phdr_of load_segment
  load_segments zero w fd table = (w, true)
  load_segments (suc n) w fd table =
      let r = load_segment w fd (phdr_of (take 56 table)) in
      elim r.1 [ false ↦ r | true ↦ load_segments n r.0 fd (drop 56 table) ]

  -- The stack of four pages, with the arguments.
  unfoldable pub start : W → Ehdr → List (List ℕ) → W × Started
  unfolding map_range setup_args
  start w h argv =
      let mapped = map_range 4 w (user_stack_top - 4 * page_size) 6 in
      let s = setup_args (sys.memory mapped) user_stack_top argv in
      (
        sys.set_memory mapped s.0,
        record { entry = h.e_entry; stack_top = s.1; argv_user_ptr = s.2 },
      )

  -- `load` once the header is read.
  unfoldable pub load_image : W → ℕ → Ehdr → List (List ℕ) → W × Option Started
  unfolding is_loadable read_fully load_segments start
  load_image w fd h argv =
      let size = h.e_phnum * 56 in
      let t = read_fully size (sys.seek w fd h.e_phoff) fd size [] in
      let l = load_segments h.e_phnum t.0 fd t.1 in
      let s = start (sys.close_file l.0 fd) h argv in
      if not (is_loadable h)
      then (sys.close_file w fd, none)
      else if not (sys.kmalloc (sys.seek w fd h.e_phoff) size)
      then (sys.close_file (sys.seek w fd h.e_phoff) fd, none)
      else if not t.2
      then (sys.close_file t.0 fd, none)
      else if not l.1
      then (sys.close_file l.0 fd, none)
      else (s.0, some s.1)

  unfoldable pub load : W → List ℕ → List (List ℕ) → W × Option Started
  unfolding ehdr_of read_fully load_image
  load w path argv =
      let o = sys.open_file w path in
      elim o.1 [
        | none ↦ (o.0, none)
        | some fd ↦
            let h = read_fully 64 o.0 fd 64 [] in
            if h.2 then load_image h.0 fd (ehdr_of h.1) argv else (sys.close_file h.0 fd, none)
      ]
