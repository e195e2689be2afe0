-- ===== src/Vfs/Files.antt =====
-- Open files and the calls on paths in src/fs/vfs.cpp.
use weng_shi_os.Base.{
  ℕ, ◌^◌, Bool, true, false, ◌&&◌, not, ltb, List, [], ◌∷◌, set, get_or, Option, none, some,
  if◌then◌else◌,
}
use weng_shi_os.Base.Int.{ℤ, pos, negsuc, sub_ℕ, ◌+ℤ◌}
use weng_shi_os.Base.Word.{add64}
use weng_shi_os.Vfs.Types.{
  FilesystemDriver, Mount, OpenFile, Vfs, max_open_files, same_text, no_mount, no_file,
}
use weng_shi_os.Vfs.Paths.{resolve_path}
use weng_shi_os.Vfs.Mounts.{first_place}

abbrev pub file_at : Vfs → ℕ → OpenFile
file_at v n = get_or v.open_files n no_file

abbrev pub mount_of : Vfs → ℕ → Mount
mount_of v i = get_or v.mounts i no_mount

-- The guard of the calls on a descriptor: the place of the open file, if it is one.
unfoldable pub open_place : Vfs → ℤ → Option ℕ
open_place v (negsuc n) = none
open_place v (pos n) = if ltb n max_open_files && (file_at v n).in_use then some n else none

abbrev pub put_file : Vfs → ℕ → OpenFile → Vfs
put_file v n f = record v { open_files = set v.open_files n f }

-- `if (n > 0) f.offset += n`.
unfoldable pub moved_on : ℕ → ℤ → ℕ
moved_on offset (pos n) = add64 offset n
moved_on offset (negsuc n) = offset

-- `static_cast<int64_t>` of a 64-bit word.
abbrev pub as_signed : ℕ → ℤ
as_signed n = if ltb n (2 ^ 63) then pos n else sub_ℕ n (2 ^ 64)

pub data SeekMode : Type 0 where
  from_start from_here from_end : SeekMode

module _ {W : Type 0} (drivers : ℕ → FilesystemDriver W) where
  abbrev pub driver_of : Mount → FilesystemDriver W
  driver_of m = drivers m.driver

  unfoldable pub open_file : Vfs → W → List ℕ → (Vfs × W) × ℤ
  open_file v w path = elim (resolve_path v.mounts path 128) [
    | none ↦ ((v, w), negsuc 0)
    | some (m, subpath) ↦ elim (first_place (λ (f : OpenFile). not f.in_use) v.open_files 0) [
      | none ↦ ((v, w), negsuc 0)
      | some i ↦
          let (w', answer) =
            (driver_of (mount_of v m)).open_file w (mount_of v m).fs_instance subpath in
          elim answer [
            | none ↦ ((v, w'), negsuc 0)
            | some handle ↦ (
              (put_file v i (record { in_use = true; mount = m; handle = handle; offset = 0 }), w'),
              pos i,
            )
          ]
    ]
  ]

  -- A read answers the bytes that the driver puts into the buffer, too.
  unfoldable pub read_file : Vfs → W → ℤ → ℕ → (Vfs × W) × List ℕ × ℤ
  read_file v w fd count = elim (open_place v fd) [
    | none ↦ ((v, w), [], negsuc 0)
    | some p ↦
        let f = file_at v p in
        let m = mount_of v f.mount in
        let (w', handle, bytes, n) = (driver_of m).read w m.fs_instance f.handle f.offset count in
        ((put_file v p (record f { handle = handle; offset = moved_on f.offset n }), w'), bytes, n)
  ]

  unfoldable pub write_file : Vfs → W → ℤ → List ℕ → (Vfs × W) × ℤ
  write_file v w fd bytes = elim (open_place v fd) [
    | none ↦ ((v, w), negsuc 0)
    | some p ↦
        let f = file_at v p in
        let m = mount_of v f.mount in
        let (w', handle, n) = (driver_of m).write w m.fs_instance f.handle f.offset bytes in
        ((put_file v p (record f { handle = handle; offset = moved_on f.offset n }), w'), n)
  ]

  unfoldable pub close_file : Vfs → W → ℤ → Vfs × W
  close_file v w fd = elim (open_place v fd) [
    | none ↦ (v, w)
    | some p ↦
        let f = file_at v p in
        let m = mount_of v f.mount in
        (
          put_file v p (record f { in_use = false }),
          (driver_of m).close_file w m.fs_instance f.handle,
        )
  ]

  -- `create`, `unlink` and `rmdir`: the driver is asked about the path below the mount.
  unfoldable pub create : Vfs → W → List ℕ → Bool → W × Bool
  create v w path as_directory = elim (resolve_path v.mounts path 128) [
    | none ↦ (w, false)
    | some (m, subpath) ↦
        (driver_of (mount_of v m)).create w (mount_of v m).fs_instance subpath as_directory
  ]

  unfoldable pub unlink : Vfs → W → List ℕ → W × Bool
  unlink v w path = elim (resolve_path v.mounts path 128) [
    | none ↦ (w, false)
    | some (m, subpath) ↦
        (driver_of (mount_of v m)).unlink_file w (mount_of v m).fs_instance subpath
  ]

  unfoldable pub rmdir : Vfs → W → List ℕ → W × Bool
  rmdir v w path = elim (resolve_path v.mounts path 128) [
    | none ↦ (w, false)
    | some (m, subpath) ↦ (driver_of (mount_of v m)).rmdir w (mount_of v m).fs_instance subpath
  ]

  -- "/", "/dev" and "/dev/disks", and every mount point, are directories.
  unfoldable pub is_directory : Vfs → W → List ℕ → W × Bool
  is_directory v w path =
      if same_text path (47 ∷ [])
      then (w, true)
      else if same_text path (47 ∷ 100 ∷ 101 ∷ 118 ∷ [])
      then (w, true)
      else if same_text path (47 ∷ 100 ∷ 101 ∷ 118 ∷ 47 ∷ 100 ∷ 105 ∷ 115 ∷ 107 ∷ 115 ∷ [])
      then (w, true)
      else elim (first_place (λ (m : Mount). m.in_use && same_text m.mount_point path) v.mounts 0) [
        | some i ↦ (w, true)
        | none ↦ elim (resolve_path v.mounts path 128) [
          | none ↦ (w, false)
          | some (m, subpath) ↦
              (driver_of (mount_of v m)).is_directory w (mount_of v m).fs_instance subpath
        ]
      ]

-- The sum of two signed words, `none` where it overflows, which C++ leaves undefined.
unfoldable pub checked_int64 : ℤ → Option ℤ
checked_int64 (pos n) = if ltb n (2 ^ 63) then some (pos n) else none
checked_int64 (negsuc n) = if ltb n (2 ^ 63) then some (negsuc n) else none

abbrev pub seek_target : OpenFile → ℤ → SeekMode → Option ℤ
seek_target f offset from_start = some offset
seek_target f offset from_here = checked_int64 (as_signed f.offset +ℤ offset)
seek_target f offset from_end = checked_int64 (as_signed f.handle.size +ℤ offset)

unfoldable pub seek_to : Vfs → ℕ → ℤ → Vfs × ℤ
seek_to v p (negsuc n) = (v, negsuc 0)
seek_to v p (pos n) = (put_file v p (record (file_at v p) { offset = n }), pos n)

unfoldable pub seek : Vfs → ℤ → ℤ → SeekMode → Option (Vfs × ℤ)
seek v fd offset mode = elim (open_place v fd) [
  | none ↦ some (v, negsuc 0)
  | some p ↦ elim (seek_target (file_at v p) offset mode) [
    | none ↦ none
    | some new_offset ↦ some (seek_to v p new_offset)
  ]
]

unfoldable pub tell : Vfs → ℤ → ℤ
tell v fd = elim (open_place v fd) [ none ↦ negsuc 0 | some p ↦ as_signed (file_at v p).offset ]
