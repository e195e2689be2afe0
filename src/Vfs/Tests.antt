-- ===== src/Vfs/Tests.antt =====
-- The laws of src/fs/vfs.cpp with one file system that has every file, empty.
use weng_shi_os.Base.{
  ℕ, ◌≡◌, ◌≢◌, ◌≤◌, ◌<◌, refl, ap, true, false, List, [], ◌∷◌, length, replicate, Option, some,
  none, arith,
}
use weng_shi_os.Base.Int.{pos}
use weng_shi_os.Vfs.Types.{DirEntry, FilesystemDriver, Mount, Vfs, no_mount, no_file, no_handle}
use weng_shi_os.Vfs.Paths.{resolve_path}
use weng_shi_os.Vfs.Longest.{Resolved, resolve_path-Resolved}
use weng_shi_os.Vfs.Files.{from_start, file_at, open_place, open_file, seek, tell}
use weng_shi_os.Vfs.Normalize.{is_absolute, normalize_path, take_segment}
use weng_shi_os.Vfs.Canonical.{AllClean, joined}
use weng_shi_os.Vfs.Rooted.{normalize_path-Clean}
use weng_shi_os.Vfs.Idempotent.{normalize_path_idem}
use weng_shi_os.Vfs.Paths.{begins}
use weng_shi_os.Vfs.Listing.{list_root, list_mounts, top_name, is_shown}
use weng_shi_os.Vfs.Names.{AllShort, list_root-distinct}
use weng_shi_os.Vfs.Descriptors.{Opened, open_file-Opened, tell-seek}

abbrev empty_files : FilesystemDriver ℕ
empty_files = record {
  mount = λ w d. (w, some 1);
  unmount = λ w i. w;
  open_file = λ w i path. (w, some no_handle);
  close_file = λ w i h. w;
  read = λ w i h offset count. (w, h, [], pos 0);
  write = λ w i h offset bytes. (w, h, pos 0);
  is_directory = λ w i path. (w, false);
  readdir = λ w i path index. (w, none);
  create = λ w i path d. (w, false);
  unlink_file = λ w i path. (w, false);
  rmdir = λ w i path. (w, false);
}

-- "/a" and "/a/b" are mounted; the first file is open.
abbrev two_mounts : List Mount
two_mounts =
    record no_mount { in_use = true; mount_point = 47 ∷ 97 ∷ [] }
    ∷ record no_mount { in_use = true; mount_point = 47 ∷ 97 ∷ 47 ∷ 98 ∷ [] }
    ∷ []

abbrev one_open : Vfs
one_open = record {
  block_devices = [];
  mounts = two_mounts;
  open_files = record no_file { in_use = true } ∷ replicate 31 no_file;
}

abbrev a_file : List ℕ
a_file = 47 ∷ 97 ∷ 47 ∷ 98 ∷ 47 ∷ 99 ∷ []

resolve_path-Resolved_example : Resolved two_mounts a_file 128 (resolve_path two_mounts a_file 128)
resolve_path-Resolved_example = resolve_path-Resolved two_mounts a_file 128

open_file-Opened_example :
    Opened (λ i. empty_files) one_open 0 (open_file (λ i. empty_files) one_open 0 a_file)
open_file-Opened_example = open_file-Opened (λ i. empty_files) one_open 0 a_file refl

first_is_open : open_place one_open (pos 0) ≡ some 0
unfolding open_place
first_is_open = refl

tell-seek_example :
    (v' : Vfs) × (seek one_open (pos 0) (pos 9) from_start ≡ some (v', pos 9))
    × (tell v' (pos 0) ≡ pos 9)
    × ((q : ℕ) → 0 ≢ q → file_at v' q ≡ file_at one_open q)
tell-seek_example = tell-seek one_open (pos 0) 0 9 refl first_is_open (omega arith)

abbrev dotted : List ℕ
dotted = 46 ∷ 46 ∷ 47 ∷ 98 ∷ 47 ∷ 47 ∷ 46 ∷ 47 ∷ 99 ∷ []

rooted : is_absolute (47 ∷ 97 ∷ []) ≡ true
unfolding is_absolute
rooted = refl

rooted_top : is_absolute (47 ∷ []) ≡ true
unfolding is_absolute
rooted_top = refl

-- From "/a", "../b//./c" is "/b/c".
normalize_path-Clean_example :
    (segments : List (List ℕ)) × (normalize_path (47 ∷ 97 ∷ []) dotted 300 ≡ 47 ∷ joined segments)
    × AllClean segments
    × (length segments ≤ 32)
    × (length (normalize_path (47 ∷ 97 ∷ []) dotted 300) < 300)
normalize_path-Clean_example =
    normalize_path-Clean (47 ∷ 97 ∷ []) dotted 300 rooted (omega arith) (omega arith)

normalize_path_idem_example :
    normalize_path (47 ∷ []) (normalize_path (47 ∷ 97 ∷ []) dotted 300) 300
    ≡ normalize_path (47 ∷ 97 ∷ []) dotted 300
normalize_path_idem_example =
    normalize_path_idem (47 ∷ 97 ∷ []) (47 ∷ []) dotted 300 rooted rooted_top (omega arith)
      (omega arith)

-- "/a" and "/b/c", of which "/" shows "a" and "b".
abbrev two_tops : Vfs
two_tops = record one_open {
  mounts =
      record no_mount { in_use = true; mount_point = 47 ∷ 97 ∷ [] }
      ∷ record no_mount { in_use = true; mount_point = 47 ∷ 98 ∷ 47 ∷ 99 ∷ [] }
      ∷ [];
}

abbrev first_entry : DirEntry
first_entry = record { name = 97 ∷ []; is_directory = true }

abbrev second_entry : DirEntry
second_entry = record { name = 98 ∷ []; is_directory = true }

shown_first : list_root two_tops (pos 1) ≡ some first_entry
unfolding list_root list_mounts top_name is_shown take_segment
shown_first = refl

shown_second : list_root two_tops (pos 2) ≡ some second_entry
unfolding list_root list_mounts top_name is_shown take_segment begins
shown_second = refl

abbrev name_size : Option (List ℕ) → ℕ
name_size none = 0
name_size (some s) = length s

two_tops-AllShort : AllShort two_tops.mounts
unfolding top_name take_segment
two_tops-AllShort =
    (λ s e. omega (arith, ap name_size e), (λ s e. omega (arith, ap name_size e), tt))

list_root-distinct_example : first_entry.name ≢ second_entry.name
list_root-distinct_example =
    list_root-distinct two_tops 0 1 first_entry second_entry two_tops-AllShort (omega arith)
      shown_first shown_second
