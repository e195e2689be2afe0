-- ===== src/Vfs/Listing.antt =====
-- `getMount` and `listDirectory` of src/fs/vfs.cpp.
use weng_shi_os.Base.{
  ℕ, zero, suc, ◌+◌, Bool, true, false, ◌==◌, ◌||◌, ◌&&◌, not, List, [], ◌∷◌, ◌++◌, length, take,
  drop, get_or, get_elem?, Option, none, some, if◌then◌else◌,
}
use weng_shi_os.Base.Int.{ℤ, pos, negsuc}
use weng_shi_os.Vfs.Types.{DirEntry, FilesystemDriver, Mount, Vfs, same_text, no_mount}
use weng_shi_os.Vfs.Paths.{begins, resolve_path}
use weng_shi_os.Vfs.Normalize.{take_segment}

-- The driver stands for its name.
pub record MountInfo : Type 0 where
  pub mount_point : List ℕ
  pub device_name : List ℕ
  pub fs_driver : ℕ

-- The loop of `getMount`, with the mounts seen so far.
unfoldable pub mount_loop : List Mount → ℕ → ℕ → Option MountInfo
mount_loop [] seen index = none
mount_loop (m ∷ ms) seen index =
    if m.in_use
    then if seen == index
      then some (record {
        mount_point = take 63 m.mount_point;
        device_name = take 31 m.device_name;
        fs_driver = m.driver;
      })
      else mount_loop ms (seen + 1) index
    else mount_loop ms seen index

unfoldable pub get_mount : Vfs → ℤ → Option MountInfo
get_mount v (negsuc n) = none
get_mount v (pos index) = mount_loop v.mounts 0 index

-- `strncmp(shown[s], start, len) == 0 && shown[s][len] == '\0'`, for one of the names shown.
unfoldable pub is_shown : List (List ℕ) → List ℕ → Bool
is_shown [] start = false
is_shown (s ∷ shown) start =
    let rest = is_shown shown start in (begins s start && (get_or s (length start) 0 == 0)) || rest

-- The bytes between the first slash and the next, or none if the mount is left out of "/".
unfoldable pub top_name : Mount → Option (List ℕ)
top_name m =
    if not m.in_use || (not (get_or m.mount_point 0 0 == 47) || (get_or m.mount_point 1 0 == 0))
    then none
    else some (take_segment (drop 1 m.mount_point)).0

-- The loop over the mounts of "/", with the names shown and the entries seen so far.
unfoldable pub list_mounts : List Mount → List (List ℕ) → ℕ → ℕ → Option DirEntry
list_mounts [] shown seen target = none
list_mounts (m ∷ ms) shown seen target = elim (top_name m) [
  | none ↦ list_mounts ms shown seen target
  | some start ↦ elim (is_shown shown start) [
    | true ↦ list_mounts ms shown seen target
    | false ↦ elim (seen == target) [
      | true ↦ some (record { name = take 63 (take 31 start); is_directory = true })
      | false ↦ list_mounts ms (shown ++ take 31 start ∷ []) (seen + 1) target
    ]
  ]
]

abbrev dev_entry : DirEntry
dev_entry = record { name = 100 ∷ 101 ∷ 118 ∷ []; is_directory = true }

abbrev disks_entry : DirEntry
disks_entry = record { name = 100 ∷ 105 ∷ 115 ∷ 107 ∷ 115 ∷ []; is_directory = true }

unfoldable pub list_root : Vfs → ℤ → Option DirEntry
list_root v (negsuc n) = some dev_entry
list_root v (pos zero) = some dev_entry
list_root v (pos (suc k)) = list_mounts v.mounts [] 0 k

unfoldable pub list_dev : ℤ → Option DirEntry
list_dev (negsuc n) = none
list_dev (pos zero) = some disks_entry
list_dev (pos (suc k)) = none

unfoldable pub list_disks : Vfs → ℤ → Option DirEntry
list_disks v (negsuc n) = none
list_disks v (pos index) = elim (get_elem? v.block_devices index) [
  | none ↦ none
  | some d ↦ some (record { name = take 63 d.name; is_directory = false })
]

module _ {W : Type 0} (drivers : ℕ → FilesystemDriver W) where
  unfoldable pub list_directory : Vfs → W → List ℕ → ℤ → W × Option DirEntry
  list_directory v w path index =
      if same_text path (47 ∷ [])
      then (w, list_root v index)
      else if same_text path (47 ∷ 100 ∷ 101 ∷ 118 ∷ [])
      then (w, list_dev index)
      else if same_text path (47 ∷ 100 ∷ 101 ∷ 118 ∷ 47 ∷ 100 ∷ 105 ∷ 115 ∷ 107 ∷ 115 ∷ [])
      then (w, list_disks v index)
      else elim (resolve_path v.mounts path 128) [
        | none ↦ (w, none)
        | some (i, subpath) ↦
            let m = get_or v.mounts i no_mount in
            (drivers m.driver).readdir w m.fs_instance subpath index
      ]
