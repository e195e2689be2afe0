-- ===== src/Tar/Archive.antt =====
-- Archives that src/file_formats/tar/tar.cpp reads.
use mathlib.Core.List.{append_assoc}
use weng_shi_os.Base.{
  ℕ, zero, suc, ◌+◌, ◌-◌, ◌/◌, ◌%◌, ◌^◌, ◌<◌, ◌≡◌, ◌==◌, false, List, [], ◌∷◌, ◌++◌, length, drop,
  get_or, replicate, length-append, length-replicate, drop_past, drop-drop, arith, refl, ◌∙◌, ap,
}
use weng_shi_os.Tar.{oct_to_dec, data_size_with_padding, text_of, t_file_name, t_file_size, t_magic}
use weng_shi_os.Tar.Octal.{octal, oct_to_dec-octal}

-- A file as an archive keeps it: `owner` is the mode, the user and the group; `between` is the time,
-- the checksum, the type and the linked name; `tail` is what follows the magic, from its version on.
pub record TarFile : Type 0 where
  pub name : List ℕ
  pub content : List ℕ
  pub owner : List ℕ
  pub between : List ℕ
  pub tail : List ℕ

-- A header of the ustar format: the name in 100 bytes, the size as eleven octal digits at 124, and
-- the magic "ustar" at 257. Of the other fields only the length is fixed.
unfoldable pub after_size : TarFile → List ℕ
after_size f = f.between ++ 117 ∷ 115 ∷ 116 ∷ 97 ∷ 114 ∷ f.tail

unfoldable pub after_name : TarFile → List ℕ
after_name f = f.owner ++ (octal 11 (length f.content) [] ++ 0 ∷ after_size f)

abbrev pub header_of : TarFile → List ℕ
header_of f = (f.name ++ replicate (100 - length f.name) 0) ++ after_name f

-- Files one after the other, each padded to 512 bytes, a header of zeros, and what follows it: a
-- second one, and the filling of the last record.
unfoldable pub last_header : List ℕ
last_header = replicate 512 0

abbrev pub archive_of : List TarFile → List ℕ → List ℕ
archive_of [] trailing = last_header ++ trailing
archive_of (f ∷ files) trailing =
    header_of f
    ++ ((f.content ++ replicate (data_size_with_padding (length f.content) - length f.content) 0)
        ++ archive_of files trailing)

abbrev pub NoNul : List ℕ → Type 0
NoNul [] = Unit {0}
NoNul (c ∷ s) = ((c == 0) ≡ false) × NoNul s

-- Names of at most 99 bytes, none of them NUL, sizes that eleven octal digits hold, and the other
-- fields with the lengths they have in a header of 512 bytes.
pub record FitsHeader (f : TarFile) : Type 0 where
  pub text : NoNul f.name
  pub short : length f.name < 100
  pub sized : length f.content < 8 ^ 11
  pub owned : length f.owner ≡ 24
  pub spaced : length f.between ≡ 121
  pub ended : length f.tail ≡ 250

abbrev pub AllFit : List TarFile → Type 0
AllFit [] = Unit {0}
AllFit (f ∷ files) = FitsHeader f × AllFit files

get_or_past :
    (n i : ℕ) (xs ys : List ℕ) → length xs ≡ n → get_or (xs ++ ys) (n + i) 0 ≡ get_or ys i 0
get_or_past zero i [] ys h = ap (λ (j : ℕ). get_or ys j 0) (omega arith)
get_or_past (suc n) i [] ys h = absurd (omega (arith, h))
get_or_past zero i (x ∷ xs) ys h = absurd (omega (arith, h))
get_or_past (suc n) i (x ∷ xs) ys h =
    ap (λ (j : ℕ). get_or (x ∷ xs ++ ys) j 0) {x = suc n + i} {y = suc (n + i)} (omega arith)
    ∙ get_or_past n i xs ys (omega (arith, h))

octal-append : (k n : ℕ) (s t : List ℕ) → octal k n s ++ t ≡ octal k n (s ++ t)
octal-append zero n s t = refl
octal-append (suc k) n s t = octal-append k (n / 8) ((48 + n % 8) ∷ s) t

text_of-pad : (name s : List ℕ) → NoNul name → text_of (name ++ 0 ∷ s) ≡ name
unfolding text_of
text_of-pad [] s h = refl
text_of-pad (c ∷ name) s h = ground (arith, h.0, text_of-pad name s h.1)

name_size :
    (name : List ℕ) → length name < 100 → length (name ++ replicate (100 - length name) 0) ≡ 100
name_size name h = omega (
  arith,
  h,
  length-append name (replicate (100 - length name) 0),
  length-replicate {A = ℕ} (100 - length name) 0,
)

padded : (n : ℕ) (s : List ℕ) → 0 < n → replicate n 0 ++ s ≡ 0 ∷ (replicate (n - 1) 0 ++ s)
padded zero s h = absurd (omega (arith, h))
padded (suc n) s h = ap (λ (k : ℕ). 0 ∷ (replicate k 0 ++ s)) (omega arith)

module _ (f : TarFile) (v : FitsHeader f) where
  pub name_read : t_file_name (header_of f) ≡ f.name
  name_read =
      let gap = 100 - length f.name in
      ap text_of (
        append_assoc f.name (replicate gap 0) (after_name f)
        ∙ ap (λ t. f.name ++ t) (padded gap (after_name f) (omega (arith, v.short))))
      ∙ text_of-pad f.name (replicate (gap - 1) 0 ++ after_name f) v.text

  size_field : oct_to_dec 12 (drop 24 (after_name f)) 0 ≡ length f.content
  unfolding after_name
  size_field =
      ap (λ t. oct_to_dec 12 t 0)
        (drop_past 24 f.owner (octal 11 (length f.content) [] ++ 0 ∷ after_size f) v.owned)
      ∙ oct_to_dec-octal 11 1 (length f.content) (0 ∷ after_size f) v.sized (omega (arith, v.sized))
      ∙ (unfold oct_to_dec in refl)

  magic_field : get_or (after_name f) 157 0 ≡ 117
  unfolding after_name after_size
  magic_field =
      get_or_past 24 133 f.owner (octal 11 (length f.content) [] ++ 0 ∷ after_size f) v.owned
      ∙ get_or_past 121 0 f.between (117 ∷ 115 ∷ 116 ∷ 97 ∷ 114 ∷ f.tail) v.spaced

  length-after_name : length (after_name f) ≡ 412
  unfolding after_name after_size
  length-after_name = omega (
    arith,
    length-append f.owner (octal 11 (length f.content) [] ++ 0 ∷ after_size f),
    length-append f.between (117 ∷ 115 ∷ 116 ∷ 97 ∷ 114 ∷ f.tail),
    v.owned,
    v.spaced,
    v.ended,
  )

  pub size_read : t_file_size (header_of f) ≡ length f.content
  size_read =
      ap (λ t. oct_to_dec 12 t 0)
        (drop-drop 100 24 (header_of f)
          ∙ ap (drop 24) (
              drop_past 100 (f.name ++ replicate (100 - length f.name) 0) (after_name f)
                (name_size f.name v.short)))
      ∙ size_field

  pub magic_read : t_magic (header_of f) ≡ 117
  magic_read =
      get_or_past 100 157 (f.name ++ replicate (100 - length f.name) 0) (after_name f)
        (name_size f.name v.short)
      ∙ magic_field

  pub length-header_of : length (header_of f) ≡ 512
  length-header_of = omega (
    arith,
    length-append (f.name ++ replicate (100 - length f.name) 0) (after_name f),
    name_size f.name v.short,
    length-after_name,
  )
