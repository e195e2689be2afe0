-- ===== src/Vfs/Mounts.antt =====
-- Registering devices, mounting and unmounting in src/fs/vfs.cpp.
use weng_shi_os.Base.{
  ℕ, ◌+◌, Bool, true, false, ◌&&◌, not, leb, List, [], ◌∷◌, ◌++◌, length, take, set, get_or, map,
  get_elem?, Option, none, some, if◌then◌else◌,
}
use weng_shi_os.Base.Int.{ℤ, pos, negsuc}
use weng_shi_os.Vfs.Types.{
  BlockDevice, FilesystemDriver, Mount, OpenFile, Vfs, max_block_devices, same_text, no_mount,
}

unfoldable pub init : Vfs → Vfs
init v = record {
  block_devices = [];
  mounts = map (λ (m : Mount). record m { in_use = false }) v.mounts;
  open_files = map (λ (f : OpenFile). record f { in_use = false }) v.open_files;
}

-- A name field of 32 bytes holds 31 and the NUL.
unfoldable pub register_block_device : Vfs → List ℕ → ℤ → ℕ → ℕ → Vfs × Bool
register_block_device v name device_handle sector_count sector_size =
    if leb max_block_devices (length v.block_devices) then (v, false) else (
      record v {
        block_devices =
            v.block_devices
            ++ record {
              name = take 31 name;
              device_handle = device_handle;
              sector_count = sector_count;
              sector_size = sector_size;
            }
              ∷ [];
      },
      true,
    )

unfoldable pub block_device_count : Vfs → ℕ
block_device_count v = length v.block_devices

unfoldable pub get_block_device : Vfs → ℤ → Option BlockDevice
get_block_device v (negsuc n) = none
get_block_device v (pos n) = get_elem? v.block_devices n

-- The loops that look for the first place with a property, from place `i` on.
unfoldable pub first_place : {A : Type 0} → (A → Bool) → List A → ℕ → Option ℕ
first_place test [] i = none
first_place test (a ∷ rest) i = elim (test a) [
  | true ↦ some i
  | false ↦ first_place test rest (i + 1)
]

unfoldable pub find_block_device : Vfs → List ℕ → Option ℕ
find_block_device v name =
    first_place (λ (d : BlockDevice). same_text d.name name) v.block_devices 0

abbrev pub mounted_at : List ℕ → Mount → Bool
mounted_at mount_point m = m.in_use && same_text m.mount_point mount_point

abbrev no_device : BlockDevice
no_device = record { name = []; device_handle = pos 0; sector_count = 0; sector_size = 0 }

module _ {W : Type 0} (drivers : ℕ → FilesystemDriver W) where
  -- The driver is asked for the instance only when there is a free place.
  unfoldable pub mount : Vfs → W → List ℕ → List ℕ → ℕ → (Vfs × W) × Bool
  mount v w mount_point device_name driver = elim (find_block_device v device_name) [
    | none ↦ ((v, w), false)
    | some dev ↦ elim (first_place (mounted_at mount_point) v.mounts 0) [
      | some j ↦ ((v, w), false)
      | none ↦ elim (first_place (λ (m : Mount). not m.in_use) v.mounts 0) [
        | none ↦ ((v, w), false)
        | some i ↦
            let (w', answer) = (drivers driver).mount w (get_or v.block_devices dev no_device) in
            elim answer [
              | none ↦ ((v, w'), false)
              | some instance_at ↦ (
                (
                  record v {
                    mounts = set v.mounts i (record {
                      in_use = true;
                      mount_point = take 63 mount_point;
                      device_name = take 31 device_name;
                      device = dev;
                      driver = driver;
                      fs_instance = instance_at;
                    });
                  },
                  w',
                ),
                true,
              )
            ]
      ]
    ]
  ]

  unfoldable pub unmount : Vfs → W → List ℕ → (Vfs × W) × Bool
  unmount v w mount_point = elim (first_place (mounted_at mount_point) v.mounts 0) [
    | none ↦ ((v, w), false)
    | some i ↦
        let m = get_or v.mounts i no_mount in
        (
          (
            record v { mounts = set v.mounts i (record m { in_use = false }) },
            (drivers m.driver).unmount w m.fs_instance,
          ),
          true,
        )
  ]

unfoldable pub mount_count : List Mount → ℕ
mount_count [] = 0
mount_count (m ∷ ms) = (if m.in_use then 1 else 0) + mount_count ms
