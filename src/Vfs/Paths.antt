-- ===== src/Vfs/Paths.antt =====
-- `resolvePath` of src/fs/vfs.cpp.
use weng_shi_os.Base.{
  ℕ, ◌+◌, Bool, true, false, ◌==◌, ◌||◌, ◌&&◌, ltb, List, [], ◌∷◌, length, take, drop, get_or,
  Option, none, some, if◌then◌else◌,
}
use weng_shi_os.Base.Word.{sub64}
use weng_shi_os.Vfs.Types.{Mount}

-- `strncmp(path, mount_point, mp_len) == 0`, and then the byte behind is the end or a slash.
unfoldable pub begins : List ℕ → List ℕ → Bool
begins path [] = true
begins [] (d ∷ t) = false
begins (c ∷ s) (d ∷ t) = let rest = begins s t in (c == d) && rest

unfoldable pub matches : List ℕ → Mount → Bool
matches path m =
    let next = get_or path (length m.mount_point) 0 in
    m.in_use && (begins path m.mount_point && ((next == 0) || (next == 47)))

-- The loop over the mounts from place `i` on, with the best one so far and its length.
unfoldable pub best_mount : List ℕ → List Mount → ℕ → Option ℕ → ℕ → Option ℕ × ℕ
best_mount path [] i best best_len = (best, best_len)
best_mount path (m ∷ ms) i best best_len =
    elim (matches path m && ltb best_len (length m.mount_point)) [
      | true ↦ best_mount path ms (i + 1) (some i) (length m.mount_point)
      | false ↦ best_mount path ms (i + 1) best best_len
    ]

unfoldable pub skip_slash : List ℕ → List ℕ
skip_slash [] = []
skip_slash (c ∷ s) = if c == 47 then s else c ∷ s

-- The mount and the path below it, cut to the room of `out_subpath` less the NUL. The room is a
-- `size_t`, so that a room of 0 does not cut.
unfoldable pub resolve_path : List Mount → List ℕ → ℕ → Option (ℕ × List ℕ)
resolve_path mounts path out_subpath_size =
    let (best, best_len) = best_mount path mounts 0 none 0 in
    elim best [
      | none ↦ none
      | some i ↦ some (i, take (sub64 out_subpath_size 1) (skip_slash (drop best_len path)))
    ]
