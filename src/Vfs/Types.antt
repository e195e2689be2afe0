-- ===== src/Vfs/Types.antt =====
-- The data of src/fs/vfs.h and vfs.cpp. A text is the list of its bytes before the NUL. A block
-- device is its place among the registered ones, and a driver its place among the drivers.
use weng_shi_os.Base.{ℕ, Bool, true, false, List, [], ◌∷◌, Option, ◌==◌, ◌&&◌}
use weng_shi_os.Base.Int.{ℤ}

pub record BlockDevice : Type 0 where
  pub name : List ℕ
  pub device_handle : ℤ
  pub sector_count : ℕ
  pub sector_size : ℕ

-- The driver's private pointer is a number.
pub record FileHandle : Type 0 where
  pub fs_private : ℕ
  pub size : ℕ
  pub is_directory : Bool

pub record DirEntry : Type 0 where
  pub name : List ℕ
  pub is_directory : Bool

-- A driver over the state `W` of everything behind it. The answers of `mount` and `open` are the
-- instance and the handle, or `none` for a null pointer and for false; that of `readdir` is the entry. A read answers the bytes it
-- puts into the buffer and its result, and both transfers may write the handle.
pub record FilesystemDriver (W : Type 0) : Type 0 where
  pub mount : W → BlockDevice → W × Option ℕ
  pub unmount : W → ℕ → W
  pub open_file : W → ℕ → List ℕ → W × Option FileHandle
  pub close_file : W → ℕ → FileHandle → W
  pub read : W → ℕ → FileHandle → ℕ → ℕ → W × FileHandle × List ℕ × ℤ
  pub write : W → ℕ → FileHandle → ℕ → List ℕ → W × FileHandle × ℤ
  pub is_directory : W → ℕ → List ℕ → W × Bool
  pub readdir : W → ℕ → List ℕ → ℤ → W × Option DirEntry
  pub create : W → ℕ → List ℕ → Bool → W × Bool
  pub unlink_file : W → ℕ → List ℕ → W × Bool
  pub rmdir : W → ℕ → List ℕ → W × Bool

pub record Mount : Type 0 where
  pub in_use : Bool
  pub mount_point : List ℕ
  pub device_name : List ℕ
  pub device : ℕ
  pub driver : ℕ
  pub fs_instance : ℕ

pub record OpenFile : Type 0 where
  pub in_use : Bool
  pub mount : ℕ
  pub handle : FileHandle
  pub offset : ℕ

pub record Vfs : Type 0 where
  pub block_devices : List BlockDevice
  pub mounts : List Mount
  pub open_files : List OpenFile

abbrev pub max_block_devices : ℕ
max_block_devices = 16

abbrev pub max_mounts : ℕ
max_mounts = 8

abbrev pub max_open_files : ℕ
max_open_files = 32

abbrev pub no_mount : Mount
no_mount = record {
  in_use = false;
  mount_point = [];
  device_name = [];
  device = 0;
  driver = 0;
  fs_instance = 0;
}

abbrev pub no_handle : FileHandle
no_handle = record { fs_private = 0; size = 0; is_directory = false }

abbrev pub no_file : OpenFile
no_file = record { in_use = false; mount = 0; handle = no_handle; offset = 0 }

-- The comparison of `strcmp(a, b) == 0`.
unfoldable pub same_text : List ℕ → List ℕ → Bool
same_text [] [] = true
same_text [] (d ∷ t) = false
same_text (c ∷ s) [] = false
same_text (c ∷ s) (d ∷ t) = let rest = same_text s t in (c == d) && rest
