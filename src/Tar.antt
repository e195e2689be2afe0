-- ===== src/Tar.antt =====
-- src/file_formats/tar/tar.cpp: listing an archive and finding a file in it. The descriptor's place in
-- the archive is the list of the bytes that are left; a read gives as many as there are. Names are
-- texts. The loops take fuel, since a cut archive has no last header and they run on.
pub mod Octal
pub mod Archive
pub mod Listed
mod Tests
use weng_shi_os.Base.{
  ℕ, zero, suc, ◌+◌, ◌-◌, ◌*◌, ◌%◌, ◌^◌, Bool, true, false, ◌==◌, ◌||◌, ◌&&◌, leb, List, [], ◌∷◌,
  ◌++◌, length, take, drop, get_or, Option, none, some, if◌then◌else◌,
}
use weng_shi_os.Vfs.Types.{same_text}

-- The loop over the digits, with the characters left in the field and the number so far.
unfoldable pub oct_to_dec : ℕ → List ℕ → ℕ → ℕ
oct_to_dec zero str n = n
oct_to_dec (suc size) [] n = n
oct_to_dec (suc size) (c ∷ str) n =
    let digit = if leb 48 c && leb c 55 then (n * 8 + (c - 48)) % 2 ^ 64 else n in
    let rest = oct_to_dec size str digit in if (c == 0) || (c == 32) then n else rest

unfoldable pub data_size_with_padding : ℕ → ℕ
data_size_with_padding size = (size + (512 - size % 512) % 512) % 2 ^ 64

-- A text field: the bytes before the NUL.
unfoldable pub text_of : List ℕ → List ℕ
text_of [] = []
text_of (c ∷ s) = let rest = text_of s in if c == 0 then [] else c ∷ rest

-- Fields of a header of 512 bytes.
abbrev pub t_file_name : List ℕ → List ℕ
t_file_name hdr = text_of hdr

abbrev pub t_file_size : List ℕ → ℕ
t_file_size hdr = oct_to_dec 12 (drop 124 hdr) 0

abbrev pub t_magic : List ℕ → ℕ
t_magic hdr = get_or hdr 257 0

-- `VFS::read` of 512 bytes into the buffer `header`.
abbrev pub read_header : List ℕ → List ℕ → List ℕ
read_header header data_left = take 512 data_left ++ drop (length (take 512 data_left)) header

-- The names and sizes that `listFiles` prints, with the buffer's bytes and those left to read.
unfoldable pub list_files : ℕ → List ℕ → List ℕ → Option (List (List ℕ × ℕ))
list_files zero header data_left = none
list_files (suc fuel) header data_left =
    let hdr = read_header header data_left in
    elim (t_magic hdr == 0) [
      | true ↦ some []
      | false ↦
          elim (list_files fuel hdr
            (drop (data_size_with_padding (t_file_size hdr)) (drop 512 data_left))) [
              | none ↦ none
              | some entries ↦ some ((t_file_name hdr, t_file_size hdr) ∷ entries)
            ]
    ]

-- The loop of `catFile` and `extractFile`: the size of the file and the bytes that start with its
-- content, or none if it is not in the archive. `hdr` is the last header, at first all zero.
unfoldable pub find_file : ℕ → List ℕ → List ℕ → List ℕ → ℕ → List ℕ → Option (Option (ℕ × List ℕ))
find_file zero filename hdr header offset data_left = none
find_file (suc fuel) filename hdr header offset data_left =
    elim (same_text filename (t_file_name hdr)) [
      | true ↦ some (some (t_file_size hdr, data_left))
      | false ↦
          let hdr' = read_header header (drop offset data_left) in
          elim (t_magic hdr' == 0) [
            | true ↦ some none
            | false ↦
                find_file fuel filename hdr' hdr' (data_size_with_padding (t_file_size hdr'))
                  (drop 512 (drop offset data_left))
          ]
    ]
