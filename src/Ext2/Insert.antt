-- ===== src/Ext2/Insert.antt =====
-- `insertDirEntry` of src/fs/ext2/ext2.cpp on a block of entries: where the new one goes.
use mathlib.Core.List.{append_assoc, append-nil}
use weng_shi_os.Base.{
  ℕ, zero, suc, ◌+◌, ◌-◌, ◌%◌, ◌^◌, ◌≤◌, ◌<◌, ◌≡◌, Bool, ◌==◌, leb, List, [], ◌∷◌, ◌++◌, length,
  take, drop, length-append, length-take, length-drop, take_past, drop-drop, take-append-drop,
  arith, refl, sym, ap, ap₂, ◌∙◌, if◌then◌else◌,
}
use weng_shi_os.Ext2.Bytes.{le, overlay}
use weng_shi_os.Ext2.Entry.{put_entry, dir_entry_min_size}
use weng_shi_os.Ext2.Slots.{Slot, slot_len, slot_bytes, IsSlot, length-slot_bytes}

-- What an entry uses of its length.
abbrev pub used_len : Slot → ℕ
used_len x = if x.inode == 0 then 0 else dir_entry_min_size (length x.name)

-- An entry in use has room for its name, padded.
pub record HasRoom (x : Slot) : Type 0 where
  pub valid : IsSlot x
  pub room : used_len x ≤ slot_len x

-- The entry that takes the place of an unused one, and the two that take that of another.
abbrev pub filled : ℕ → ℕ → List ℕ → Slot → Slot
filled child kind name x = record {
  inode = child;
  kind = kind;
  name = name;
  spare = drop (length name) (x.name ++ x.spare);
}

-- The bytes between a name and the next entry, where that one stands as close as it may.
abbrev pub pad : Slot → ℕ
pad x = dir_entry_min_size (length x.name) - (8 + length x.name)

abbrev pub cut_short : Slot → Slot
cut_short x = record x { spare = take (pad x) x.spare }

abbrev pub behind : ℕ → ℕ → List ℕ → Slot → Slot
behind child kind name x = record {
  inode = child;
  kind = kind;
  name = name;
  spare = drop (8 + length name) (drop (pad x) x.spare);
}

abbrev pub refit : ℕ → ℕ → List ℕ → Slot → List Slot
refit child kind name x =
    if x.inode == 0
    then filled child kind name x ∷ []
    else cut_short x ∷ behind child kind name x ∷ []

abbrev pub fits : List ℕ → Slot → Bool
fits name x = leb (dir_entry_min_size (length name)) (slot_len x - used_len x)

-- A buffer is overwritten behind its first bytes.
overlay_past :
    (p r : List ℕ) (k : ℕ) (b : List ℕ) → overlay (p ++ r) (length p + k) b ≡ p ++ overlay r k b
unfolding overlay
overlay_past [] r k b = ap (λ (n : ℕ). overlay r n b) {x = 0 + k} {y = k} (omega arith)
overlay_past (x ∷ p) r k b =
    ap (λ (n : ℕ). overlay (x ∷ (p ++ r)) n b) {y = suc (length p + k)} (omega arith)
    ∙ ap (λ (n : ℕ). x ∷ (take (length p + k) (p ++ r) ++ (b ++ drop n (x ∷ (p ++ r)))))
        {x = suc (length p + k) + length b} {y = suc (length p + k + length b)} (omega arith)
    ∙ ap (λ (t : List ℕ). x ∷ t) (overlay_past p r k b)

drop_within : (n : ℕ) (xs ys : List ℕ) → n ≤ length xs → drop n (xs ++ ys) ≡ drop n xs ++ ys
drop_within zero xs ys h = refl
drop_within (suc n) [] ys h = absurd (omega (arith, h))
drop_within (suc n) (x ∷ xs) ys h = drop_within n xs ys (omega (arith, h))

-- The length of an entry cut to its first bytes.
cut_len :
    (x : Slot) (q : List ℕ) (k : ℕ)
    → k ≤ length x.spare
    → overlay (slot_bytes x ++ q) 4 (le 2 (8 + length x.name + k))
      ≡ slot_bytes (record x { spare = take k x.spare }) ++ (drop k x.spare ++ q)
unfolding overlay slot_bytes
cut_len x q k small =
    ap₂
      (λ (n : ℕ) (s : List ℕ).
        le 4 x.inode ++ (le 2 n ++ (le 1 (length x.name) ++ (le 1 x.kind ++ s))))
      {y = 8 + length x.name + length (take k x.spare)}
      (omega (arith, small, length-take k x.spare))
      (append_assoc x.name x.spare q
        ∙ ap (λ (s : List ℕ). x.name ++ s)
            (ap (λ (s : List ℕ). s ++ q) (sym (take-append-drop k x.spare))
              ∙ append_assoc (take k x.spare) (drop k x.spare) q)
        ∙ sym (append_assoc x.name (take k x.spare) (drop k x.spare ++ q)))

-- The bytes of an entry, up to its name.
abbrev entry_bytes : ℕ → ℕ → List ℕ → ℕ → List ℕ
entry_bytes child kind name len =
    le 4 child ++ (le 2 len ++ (le 1 (length name) ++ (le 1 kind ++ name)))

module _ (child kind : ℕ) (name : List ℕ) (h : length name < 2 ^ 8) where
  put_entry_past :
      (p r : List ℕ) (k len : ℕ)
      → put_entry (p ++ r) (length p + k) child len kind name
        ≡ p ++ overlay r k (entry_bytes child kind name len)
  unfolding put_entry
  put_entry_past p r k len =
      ap
        (λ (s : List ℕ).
          overlay (p ++ r) (length p + k)
            (le 4 child ++ (le 2 len ++ (le 1 (length name) ++ (le 1 kind ++ s)))))
        whole_name
      ∙ overlay_past p r k (entry_bytes child kind name len)
    where
      whole_name : take (length name % 2 ^ 8) name ≡ name
      whole_name =
          ap (λ (n : ℕ). take n name) {y = length name} (omega (arith, h))
          ∙ ap (take (length name)) (sym (append-nil name))
          ∙ take_past (length name) name [] refl

  overlay_front :
      (r : List ℕ) (len : ℕ)
      → overlay r 0 (entry_bytes child kind name len)
        ≡ entry_bytes child kind name len ++ drop (8 + length name) r
  unfolding overlay
  overlay_front r len =
      ap (λ (n : ℕ). entry_bytes child kind name len ++ drop n r)
        {x = 0 + length (entry_bytes child kind name len)} {y = 8 + length name} (omega arith)

  -- An entry with all the bytes behind it, and the same as an entry of the block.
  slot_front :
      (len : ℕ) (s q : List ℕ)
      → len ≡ 8 + length name + length s
      → entry_bytes child kind name len ++ (s ++ q)
        ≡ slot_bytes (record { inode = child; kind = kind; name = name; spare = s }) ++ q
  unfolding slot_bytes
  slot_front len s q e =
      ap (λ (n : ℕ). entry_bytes child kind name n ++ (s ++ q)) e
      ∙ ap
          (λ (r : List ℕ).
            le 4 child
            ++ (le 2 (8 + length name + length s) ++ (le 1 (length name) ++ (le 1 kind ++ r))))
          (sym (append_assoc name s q))

  -- The entry put into the place of `x` where it is unused.
  pub fill_unused :
      (p q : List ℕ) (x : Slot)
      → dir_entry_min_size (length name) ≤ slot_len x
      → put_entry (p ++ (slot_bytes x ++ q)) (length p) child (slot_len x) kind name
        ≡ p ++ (slot_bytes (filled child kind name x) ++ q)
  unfolding slot_bytes dir_entry_min_size
  fill_unused p q x room =
      let old = x.name ++ x.spare in
      let tail : drop (8 + length name) (slot_bytes x ++ q) ≡ drop (length name) old ++ q =
        drop-drop 8 (length name) (slot_bytes x ++ q)
        ∙ drop_within (length name) old q (omega (arith, room, length-append x.name x.spare)) in
      ap (λ (n : ℕ). put_entry (p ++ (slot_bytes x ++ q)) n child (slot_len x) kind name)
        {y = length p + 0} (omega arith)
      ∙ put_entry_past p (slot_bytes x ++ q) 0 (slot_len x)
      ∙ ap (λ (s : List ℕ). p ++ s)
          (overlay_front (slot_bytes x ++ q) (slot_len x)
            ∙ ap (λ (s : List ℕ). entry_bytes child kind name (slot_len x) ++ s) tail
            ∙ slot_front (slot_len x) (drop (length name) old) q
                (omega (arith, room, length-append x.name x.spare, length-drop (length name) old)))

  -- The entry put behind what `x` uses of its length.
  pub fill_behind :
      (p q : List ℕ) (x : Slot) (k : ℕ)
      → k ≤ length x.spare
      → dir_entry_min_size (length name) ≤ length x.spare - k
      → put_entry
          (overlay (p ++ (slot_bytes x ++ q)) (length p + 4) (le 2 (8 + length x.name + k)))
          (length p + (8 + length x.name + k))
          child
          (length x.spare - k)
          kind
          name
        ≡ p
          ++ (slot_bytes (record x { spare = take k x.spare })
              ++ (slot_bytes (record {
                inode = child;
                kind = kind;
                name = name;
                spare = drop (8 + length name) (drop k x.spare);
              })
                  ++ q))
  unfolding dir_entry_min_size
  fill_behind p q x k small room =
      let used = 8 + length x.name + k in
      let short : Slot = record x { spare = take k x.spare } in
      let rest = drop k x.spare in
      let cut : overlay (p ++ (slot_bytes x ++ q)) (length p + 4) (le 2 used)
          ≡ p ++ (slot_bytes short ++ (rest ++ q)) =
        overlay_past p (slot_bytes x ++ q) 4 (le 2 used)
        ∙ ap (λ (s : List ℕ). p ++ s) (cut_len x q k small) in
      let whole_short : length (slot_bytes short) ≡ used =
        length-slot_bytes short ∙ omega (arith, small, length-take k x.spare) in
      let tail : drop (8 + length name) (rest ++ q) ≡ drop (8 + length name) rest ++ q =
        drop_within (8 + length name) rest q (omega (arith, room, length-drop k x.spare)) in
      ap (λ (b : List ℕ). put_entry b (length p + used) child (length x.spare - k) kind name) cut
      ∙ put_entry_past p (slot_bytes short ++ (rest ++ q)) used (length x.spare - k)
      ∙ ap (λ (s : List ℕ). p ++ s)
          (ap
              (λ (n : ℕ).
                overlay (slot_bytes short ++ (rest ++ q)) n
                  (entry_bytes child kind name (length x.spare - k)))
              {y = length (slot_bytes short) + 0} (omega (arith, whole_short))
            ∙ overlay_past (slot_bytes short) (rest ++ q) 0
                (entry_bytes child kind name (length x.spare - k))
            ∙ ap (λ (s : List ℕ). slot_bytes short ++ s)
                (overlay_front (rest ++ q) (length x.spare - k)
                  ∙ ap (λ (s : List ℕ). entry_bytes child kind name (length x.spare - k) ++ s) tail
                  ∙ slot_front (length x.spare - k) (drop (8 + length name) rest) q (
                      omega
                        (arith, room, length-drop k x.spare, length-drop (8 + length name) rest))))
