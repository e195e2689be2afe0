-- ===== src/Tar/Listed.antt =====
-- The listing of the archives that src/file_formats/tar/tar.cpp reads.
use weng_shi_os.Base.{ℕ, ◌-◌, List, ◌++◌, length, replicate}
use weng_shi_os.Tar.{data_size_with_padding}

-- The content of a file with its padding.
padded_content : List ℕ → List ℕ
padded_content content =
    content ++ replicate (data_size_with_padding (length content) - length content) 0
