-- ===== src/Vfs/Descriptors.antt =====
-- The descriptors of src/fs/vfs.cpp: opening, closing, seeking and reading.
use weng_shi_os.Base.{
  ℕ, zero, suc, ◌+◌, ◌^◌, ◌<◌, ◌≡◌, ◌≢◌, refl, true, false, not, ◌==◌, List, [], ◌∷◌, length,
  get_or, get_or-set_self, get_or-set_ne, Option, none, some, arith, Bool-cases, Option-cases, inl,
  inr, ◌∙◌, sym, ap, subst, if◌then◌else◌,
}
use weng_shi_os.Base.Int.{ℤ, pos, negsuc}
use weng_shi_os.Vfs.Types.{FilesystemDriver, FileHandle, OpenFile, Vfs, no_file}
use weng_shi_os.Vfs.Paths.{resolve_path}
use weng_shi_os.Vfs.Mounts.{first_place}
use weng_shi_os.Vfs.Files.{
  file_at, mount_of, open_place, put_file, as_signed, from_start, open_file, seek, seek_to, tell,
}

-- The table of open files has its 32 places.
abbrev pub HasTable : Vfs → Type 0
HasTable v = length v.open_files ≡ 32

open_inside :
    (v : Vfs) (fd : ℤ) (p : ℕ)
    → open_place v fd ≡ some p
    → (fd ≡ pos p) × (p < 32) × ((file_at v p).in_use ≡ true)
unfolding open_place
open_inside v (negsuc n) p e = absurd (ground (arith, e))
open_inside v (pos n) p e = ground (arith, e)

open_place-put :
    (v : Vfs) (p : ℕ) (f : OpenFile)
    → HasTable v
    → p < 32
    → open_place (put_file v p f) (pos p) ≡ (if f.in_use then some p else none)
unfolding open_place
open_place-put v p f t h = ground (arith, get_or-set_self v.open_files p f no_file, t, h)

file_at-put :
    (v : Vfs) (p q : ℕ) (f : OpenFile)
    → HasTable v
    → p < 32
    → file_at (put_file v p f) q ≡ (if p == q then f else file_at v q)
file_at-put v p q f t h = ground (
  arith,
  get_or-set_self v.open_files p f no_file,
  get_or-set_ne v.open_files p q f no_file,
  t,
  h,
)

seek_there :
    (v : Vfs) (fd : ℤ) (p n : ℕ)
    → open_place v fd ≡ some p
    → seek v fd (pos n) from_start ≡ some (seek_to v p (pos n))
unfolding seek
seek_there v fd p n e = ground (arith, e)

tell_at :
    (v : Vfs) (fd : ℤ) (p : ℕ)
    → open_place v fd ≡ some p
    → tell v fd ≡ as_signed (file_at v p).offset
unfolding tell
tell_at v fd p e = rw (e, tell) refl

-- `seek` on an open file to an offset from the start returns it, `tell` then answers it, the
-- descriptor stays open, and no other file changes.
pub tell-seek :
    (v : Vfs) (fd : ℤ) (p n : ℕ)
    → HasTable v
    → open_place v fd ≡ some p
    → n < 2 ^ 63
    → (v' : Vfs) × (seek v fd (pos n) from_start ≡ some (v', pos n))
      × (tell v' fd ≡ pos n)
      × ((q : ℕ) → p ≢ q → file_at v' q ≡ file_at v q)
unfolding seek_to
tell-seek v fd p n t e h =
    let (same, small, used) = open_inside v fd p e in
    let f : OpenFile = record (file_at v p) { offset = n } in
    let still : open_place (put_file v p f) fd ≡ some p =
      ap (open_place (put_file v p f)) same ∙ open_place-put v p f t small ∙ ground (arith, used) in
    (
      put_file v p f,
      seek_there v fd p n e,
      tell_at (put_file v p f) fd p still ∙ ground (arith, file_at-put v p p f t small, h),
      λ q ne. ground (arith, file_at-put v p q f t small),
    )

-- The search for a free place in the table.
data Free (fs : List OpenFile) (i : ℕ) (r : Option ℕ) : Type 0 where
  all_used : r ≡ none → Free fs i r
  free_at :
      (j : ℕ)
      → j < length fs
      → (get_or fs j no_file).in_use ≡ false
      → ((k : ℕ) → k < j → (get_or fs k no_file).in_use ≡ true)
      → r ≡ some (i + j)
      → Free fs i r

all_of : (P : ℕ → Type 0) → P 0 → ((k : ℕ) → P (suc k)) → (k : ℕ) → P k
all_of P z s zero = z
all_of P z s (suc k) = s k

Free-next :
    (f : OpenFile) (fs : List OpenFile) (i : ℕ) {r : Option ℕ}
    → f.in_use ≡ true
    → Free fs (i + 1) r
    → Free (f ∷ fs) i r
Free-next f fs i u (all_used e) = all_used e
Free-next f fs i u (free_at j h free before e) =
    free_at (suc j) (omega arith) free (all_of _ (λ h. u) (λ k h. before k (omega (arith, h))))
      (e ∙ ap some (omega arith))

place_passed :
    (f : OpenFile) (fs : List OpenFile) (i : ℕ)
    → f.in_use ≡ true
    → first_place (λ (f : OpenFile). not f.in_use) (f ∷ fs) i
      ≡ first_place (λ (f : OpenFile). not f.in_use) fs (i + 1)
unfolding first_place
place_passed f fs i u = ground (arith, u)

place_taken :
    (f : OpenFile) (fs : List OpenFile) (i : ℕ)
    → f.in_use ≡ false
    → first_place (λ (f : OpenFile). not f.in_use) (f ∷ fs) i ≡ some i
unfolding first_place
place_taken f fs i u = ground (arith, u)

place_none : (i : ℕ) → first_place (λ (f : OpenFile). not f.in_use) [] i ≡ none
unfolding first_place
place_none i = refl

first_place-Free :
    (fs : List OpenFile) (i : ℕ) → Free fs i (first_place (λ (f : OpenFile). not f.in_use) fs i)
first_place-Free [] i = all_used (place_none i)
first_place-Free (f ∷ fs) i = elim (Bool-cases f.in_use) [
  | inl u ↦
      subst (Free (f ∷ fs) i) (sym (place_passed f fs i u))
        (Free-next f fs i u (first_place-Free fs (i + 1)))
  | inr u ↦
      free_at 0 (omega arith) u (λ k h. absurd (omega (arith, h)))
        (place_taken f fs i u ∙ ap some {x = i} {y = i + 0} (omega arith))
]

module _ {W : Type 0} (drivers : ℕ → FilesystemDriver W) where
  -- What `open` leaves: nothing changes in the table and the answer is -1, or the lowest free
  -- descriptor is open, at the start of the file, and no other file changes.
  pub data Opened (v : Vfs) (w : W) (r : (Vfs × W) × ℤ) : Type 0 where
    refused : r.0.0 ≡ v → r.1 ≡ negsuc 0 → Opened v w r
    opened :
        (i : ℕ)
        → (file_at v i).in_use ≡ false
        → ((k : ℕ) → k < i → (file_at v k).in_use ≡ true)
        → r.1 ≡ pos i
        → tell r.0.0 (pos i) ≡ pos 0
        → ((q : ℕ) → i ≢ q → file_at r.0.0 q ≡ file_at v q)
        → Opened v w r

  place_file :
      (v : Vfs) (w : W) (i : ℕ) (f : OpenFile) (w' : W)
      → HasTable v
      → i < 32
      → (file_at v i).in_use ≡ false
      → ((k : ℕ) → k < i → (file_at v k).in_use ≡ true)
      → f.in_use ≡ true
      → f.offset ≡ 0
      → Opened v w ((put_file v i f, w'), pos i)
  place_file v w i f w' t h free before u z =
      opened i free before refl
        (tell_at (put_file v i f) (pos i) i (open_place-put v i f t h ∙ ground (arith, u))
          ∙ ground (arith, file_at-put v i i f t h, z))
        (λ q ne. ground (arith, file_at-put v i q f t h))

  ask : Vfs → W → ℕ → List ℕ → W × Option FileHandle
  ask v w m subpath = (drivers (mount_of v m).driver).open_file w (mount_of v m).fs_instance subpath

  open_nowhere :
      (v : Vfs) (w : W) (path : List ℕ)
      → resolve_path v.mounts path 128 ≡ none
      → open_file drivers v w path ≡ ((v, w), negsuc 0)
  unfolding open_file
  open_nowhere v w path e = rw (e, open_file) refl

  open_full :
      (v : Vfs) (w : W) (path subpath : List ℕ) (m : ℕ)
      → resolve_path v.mounts path 128 ≡ some (m, subpath)
      → first_place (λ (f : OpenFile). not f.in_use) v.open_files 0 ≡ none
      → open_file drivers v w path ≡ ((v, w), negsuc 0)
  unfolding open_file
  open_full v w path subpath m e f = rw (e, f, open_file) refl

  open_refused :
      (v : Vfs) (w w' : W) (path subpath : List ℕ) (m i : ℕ)
      → resolve_path v.mounts path 128 ≡ some (m, subpath)
      → first_place (λ (f : OpenFile). not f.in_use) v.open_files 0 ≡ some i
      → ask v w m subpath ≡ (w', none)
      → open_file drivers v w path ≡ ((v, w'), negsuc 0)
  unfolding open_file ask
  open_refused v w w' path subpath m i e f a =
      rw (e, f, a, open_file) (ap (λ (r : W × Option FileHandle). ((v, r.0), negsuc 0)) a)

  open_granted :
      (v : Vfs) (w w' : W) (path subpath : List ℕ) (m i : ℕ) (handle : FileHandle)
      → resolve_path v.mounts path 128 ≡ some (m, subpath)
      → first_place (λ (f : OpenFile). not f.in_use) v.open_files 0 ≡ some i
      → ask v w m subpath ≡ (w', some handle)
      → open_file drivers v w path ≡ (
        (put_file v i (record { in_use = true; mount = m; handle = handle; offset = 0 }), w'),
        pos i,
      )
  unfolding open_file ask
  open_granted v w w' path subpath m i handle e f a =
      rw (e, f, a, open_file)
        (ap
          (λ (r : W × Option FileHandle). (
            (put_file v i (record { in_use = true; mount = m; handle = handle; offset = 0 }), r.0),
            pos i,
          ))
          a)

  open_resolved :
      (v : Vfs) (w : W) (path subpath : List ℕ) (m : ℕ)
      → HasTable v
      → resolve_path v.mounts path 128 ≡ some (m, subpath)
      → Free v.open_files 0 (first_place (λ (f : OpenFile). not f.in_use) v.open_files 0)
      → Opened v w (open_file drivers v w path)
  open_resolved v w path subpath m t e (all_used f) =
      rw (open_full v w path subpath m e f) (refused refl refl)
  open_resolved v w path subpath m t e (free_at i h free before f) =
      elim (Option-cases (ask v w m subpath).1) [
        | inl a ↦
            rw
              (open_refused v w (ask v w m subpath).0 path subpath m i e
                (f ∙ ap some {x = 0 + i} {y = i} (omega arith))
                (ap (λ (r : Option FileHandle). ((ask v w m subpath).0, r)) a))
              (refused refl refl)
        | inr (handle, a) ↦
            rw
              (open_granted v w (ask v w m subpath).0 path subpath m i handle e
                (f ∙ ap some {x = 0 + i} {y = i} (omega arith))
                (ap (λ (r : Option FileHandle). ((ask v w m subpath).0, r)) a))
              (place_file v w i (record { in_use = true; mount = m; handle = handle; offset = 0 })
                (ask v w m subpath).0 t (omega (arith, h, t)) free before refl refl)
      ]

  -- `open` does what `Opened` says, whatever the drivers do.
  pub open_file-Opened :
      (v : Vfs) (w : W) (path : List ℕ) → HasTable v → Opened v w (open_file drivers v w path)
  open_file-Opened v w path t = elim (Option-cases (resolve_path v.mounts path 128)) [
    | inl e ↦ rw (open_nowhere v w path e) (refused refl refl)
    | inr ((m, subpath), e) ↦ open_resolved v w path subpath m t e (first_place-Free v.open_files 0)
  ]
