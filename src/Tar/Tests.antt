-- ===== src/Tar/Tests.antt =====
-- Tests of the model of src/file_formats/tar/tar.cpp.
use weng_shi_os.Base.{ℕ, List, [], ◌∷◌, ◌++◌, replicate}
use weng_shi_os.Tar.Octal.{octal}
use weng_shi_os.Tar.Archive.{TarFile}

-- A file of mode 644, with its checksum.
abbrev tar_file : ℕ → List ℕ → ℕ → TarFile
tar_file letter content checksum = record {
  name = letter ∷ [];
  content = content;
  owner = octal 7 420 [] ++ 0 ∷ (octal 7 0 [] ++ 0 ∷ (octal 7 0 [] ++ 0 ∷ []));
  between = octal 11 0 [] ++ 0 ∷ (octal 6 checksum [] ++ 0 ∷ 32 ∷ 48 ∷ replicate 100 0);
  tail = 0 ∷ 48 ∷ 48 ∷ replicate 247 0;
}

-- "a" with three bytes and "b" with none.
abbrev two_files : List TarFile
two_files = tar_file 97 (1 ∷ 2 ∷ 3 ∷ []) 3137 ∷ tar_file 98 [] 3135 ∷ []
