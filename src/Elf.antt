-- ===== src/Elf.antt =====
-- src/file_formats/elf/elf.cpp: what the loader asks of a file's header, and the arguments that it
-- puts on the stack of a program.
pub mod Args
pub mod Load
mod Tests
use weng_shi_os.Base.{
  ℕ, zero, suc, ◌+◌, ◌-◌, ◌*◌, ◌/◌, Bool, true, false, not, ◌==◌, ◌&&◌, List, [], ◌∷◌, ◌++◌, length,
  take, get_or, Option, none, some, if◌then◌else◌,
}
use weng_shi_os.Base.Word.{sub64}
use weng_shi_os.Base.Mem.{Mem, poke}
use weng_shi_os.Ext2.Bytes.{le, field}

-- `Elf64_Ehdr` as its bytes lie in the file.
pub record Ehdr : Type 0 where
  pub e_ident : List ℕ
  pub e_type : ℕ
  pub e_machine : ℕ
  pub e_version : ℕ
  pub e_entry : ℕ
  pub e_phoff : ℕ
  pub e_shoff : ℕ
  pub e_flags : ℕ
  pub e_ehsize : ℕ
  pub e_phentsize : ℕ
  pub e_phnum : ℕ
  pub e_shentsize : ℕ
  pub e_shnum : ℕ
  pub e_shstrndx : ℕ

unfoldable pub ehdr_of : List ℕ → Ehdr
ehdr_of b = record {
  e_ident = take 16 b;
  e_type = field 16 2 b;
  e_machine = field 18 2 b;
  e_version = field 20 4 b;
  e_entry = field 24 8 b;
  e_phoff = field 32 8 b;
  e_shoff = field 40 8 b;
  e_flags = field 48 4 b;
  e_ehsize = field 52 2 b;
  e_phentsize = field 54 2 b;
  e_phnum = field 56 2 b;
  e_shentsize = field 58 2 b;
  e_shnum = field 60 2 b;
  e_shstrndx = field 62 2 b;
}

abbrev pub max_args : ℕ
max_args = 16

-- `memcpy` to an address.
unfoldable pub put_bytes : Mem → ℕ → List ℕ → Mem
put_bytes m p [] = m
put_bytes m p (b ∷ bytes) = put_bytes (poke m p b) (p + 1) bytes

-- What the loop over the arguments leaves: the memory, the stack pointer and the addresses.
pub record Pushed : Type 0 where
  pub mem : Mem
  pub sp : ℕ
  pub addrs : List ℕ

-- The loop goes from the last argument to the first, each with its NUL.
unfoldable pub push_args : Mem → ℕ → List (List ℕ) → Pushed
unfolding put_bytes
push_args m stack_top [] = record { mem = m; sp = stack_top; addrs = [] }
push_args m stack_top (arg ∷ args) =
    let r = push_args m stack_top args in
    let sp = sub64 r.sp (length arg + 1) in
    record { mem = put_bytes r.mem sp (arg ++ 0 ∷ []); sp = sp; addrs = sp ∷ r.addrs }

-- The bytes of the array of pointers and of the null behind it.
unfoldable pub array_bytes : List ℕ → List ℕ
array_bytes [] = le 8 0
array_bytes (a ∷ addrs) = le 8 a ++ array_bytes addrs

-- The new memory, the stack pointer and the address of the array.
unfoldable pub setup_args : Mem → ℕ → List (List ℕ) → Mem × ℕ × ℕ
unfolding push_args put_bytes array_bytes
setup_args m stack_top argv =
    let args = take max_args argv in
    let r = push_args m stack_top args in
    let array = sub64 (Pushed.sp r / 8 * 8) ((length args + 1) * 8) in
    (put_bytes r.mem array (array_bytes r.addrs), array / 16 * 16, array)
