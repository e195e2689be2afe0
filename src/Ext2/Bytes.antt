-- ===== src/Ext2/Bytes.antt =====
-- Little-endian numbers in a buffer, as the packed structs of src/fs/ext2/ext2.cpp lie in memory.
use weng_shi_os.Base.{ℕ, zero, suc, ◌+◌, ◌*◌, ◌/◌, ◌%◌, List, [], ◌∷◌, ◌++◌, length, take, drop}

-- The `w` low bytes of a number, and the number that bytes stand for.
abbrev pub le : ℕ → ℕ → List ℕ
le zero v = []
le (suc w) v = (v % 256) ∷ le w (v / 256)

abbrev pub le_value : List ℕ → ℕ
le_value [] = 0
le_value (b ∷ bytes) = b + 256 * le_value bytes

-- The field of `w` bytes at an offset.
abbrev pub field : ℕ → ℕ → List ℕ → ℕ
field off w bytes = le_value (take w (drop off bytes))

-- `memcpy` of `bytes` to an offset in a buffer.
unfoldable pub overlay : List ℕ → ℕ → List ℕ → List ℕ
overlay buf off bytes = take off buf ++ (bytes ++ drop (off + length bytes) buf)
