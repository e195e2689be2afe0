-- ===== src/Ext2/Ram.antt =====
-- A disk in memory, which does what src/fs/ext2/ext2.cpp relies on.
use weng_shi_os.Base.{
  ℕ, zero, suc, ◌+◌, ◌-◌, ◌*◌, ◌≤◌, ◌<◌, ◌≡◌, ◌⊎◌, true, ◌&&◌, ltb, leb, List, [], ◌∷◌, length,
  get_or, some, arith, refl, sym, ap, ap₂, ◌∙◌, if◌then◌else◌, inl, inr,
}
use weng_shi_os.Base.Mem.{Apart}
use weng_shi_os.Ext2.Types.{Host}
use weng_shi_os.Ext2.Device.{IsDevice}

-- The bytes at `p` and behind.
abbrev pub bytes_at : (ℕ → ℕ) → ℕ → ℕ → List ℕ
bytes_at w p zero = []
bytes_at w p (suc n) = w p ∷ bytes_at w (p + 1) n

length-bytes_at : (w : ℕ → ℕ) (p n : ℕ) → length (bytes_at w p n) ≡ n
length-bytes_at w p zero = refl
length-bytes_at w p (suc n) = ap suc (length-bytes_at w (p + 1) n)

bytes_at-ext :
    (v w : ℕ → ℕ) (p n : ℕ)
    → ((q : ℕ) → p ≤ q → q < p + n → v q ≡ w q)
    → bytes_at v p n ≡ bytes_at w p n
bytes_at-ext v w p zero h = refl
bytes_at-ext v w p (suc n) h =
    ap₂ (λ (a : ℕ) (t : List ℕ). a ∷ t) (h p (omega arith) (omega arith))
      (bytes_at-ext v w (p + 1) n (λ q a b. h q (omega arith) (omega arith)))

bytes_at-list :
    (w : ℕ → ℕ) (p : ℕ) (b : List ℕ)
    → ((i : ℕ) → i < length b → w (p + i) ≡ get_or b i 0)
    → bytes_at w p (length b) ≡ b
bytes_at-list w p [] h = refl
bytes_at-list w p (x ∷ b) h =
    ap₂ (λ (a : ℕ) (t : List ℕ). a ∷ t) (ap w {y = p + 0} (omega arith) ∙ h 0 (omega arith))
      (bytes_at-list w (p + 1) b
        (λ i l. ap w {y = p + suc i} (omega arith) ∙ h (suc i) (omega arith)))

abbrev pub overwrite : (ℕ → ℕ) → ℕ → ℕ → List ℕ → ℕ → ℕ
overwrite w lba n b q =
    if leb (lba * 512) q && ltb q (lba * 512 + n * 512) then get_or b (q - lba * 512) 0 else w q

abbrev pub ram : Host (ℕ → ℕ)
ram = record {
  sector_size = 512;
  read = λ w lba n. some (bytes_at w (lba * 512) (n * 512));
  write = λ w lba n b. (overwrite w lba n b, true);
  kmalloc = λ w n. true;
}

overwrite-in :
    (w : ℕ → ℕ) (lba n : ℕ) (b : List ℕ) (i : ℕ)
    → i < n * 512
    → overwrite w lba n b (lba * 512 + i) ≡ get_or b i 0
overwrite-in w lba n b i h =
    ground
      (arith, h, ap (λ (k : ℕ). get_or b k 0) {x = lba * 512 + i - lba * 512} {y = i} (omega arith))

overwrite-out :
    (w : ℕ → ℕ) (lba n : ℕ) (b : List ℕ) (q : ℕ)
    → (q < lba * 512) ⊎ (lba * 512 + n * 512 ≤ q)
    → overwrite w lba n b q ≡ w q
overwrite-out w lba n b q h = ground (arith, h)

outside_range :
    (lba n lba' n' q : ℕ)
    → Apart lba n lba' n'
    → lba' * 512 ≤ q
    → q < lba' * 512 + n' * 512
    → (q < lba * 512) ⊎ (lba * 512 + n * 512 ≤ q)
outside_range lba n lba' n' q (inl a) lo hi = inr (omega arith)
outside_range lba n lba' n' q (inr a) lo hi = inl (omega arith)

pub ram-IsDevice : IsDevice ram
ram-IsDevice = record {
  fills = λ w lba n b e.
      ap length {x = b} {y = bytes_at w (lba * 512) (n * 512)} (ground (arith, e))
      ∙ length-bytes_at w (lba * 512) (n * 512);
  keeps = λ w lba n b l ok. ap some (
      ap (bytes_at (overwrite w lba n b) (lba * 512)) (sym l)
      ∙ bytes_at-list (overwrite w lba n b) (lba * 512) b
          (λ i h. overwrite-in w lba n b i (omega (arith, h, l))));
  spares = λ w lba n b lba' n' apart. ap some (
      bytes_at-ext (overwrite w lba n b) w (lba' * 512) (n' * 512)
        (λ q lo hi. overwrite-out w lba n b q (outside_range lba n lba' n' q apart lo hi)));
  heap = λ w lba n b size. refl;
}
