-- ===== src/Ext2/Entered.antt =====
-- What a directory block of src/fs/ext2/ext2.cpp holds after an entry was put into it.
use weng_shi_os.Base.{
  ℕ, ◌+◌, ◌-◌, ◌^◌, ◌≤◌, ◌<◌, ◌≡◌, Bool, true, false, ◌==◌, List, [], ◌∷◌, ◌++◌, length, drop,
  length-append, length-take, length-drop, some, arith, refl, sym, ap, subst, ◌∙◌, if◌then◌else◌,
  Bool-cases, Option-cases, inl, inr, if_cases, leb→le,
}
use weng_shi_os.Vfs.Types.{same_text}
use weng_shi_os.Ext2.Entry.{dir_entry_min_size, Visit, done, next}
use weng_shi_os.Ext2.Slots.{Slot, slot_len, slot_bytes, block_bytes, length-slot_bytes}
use weng_shi_os.Ext2.Found.{holds, find_slot}
use weng_shi_os.Ext2.Insert.{used_len, HasRoom, filled, cut_short, behind, refit, fits, pad}
use weng_shi_os.Ext2.Inserted.{dir_entry_min_size-le}
use weng_shi_os.Ext2.Listed.{HaveRoom, insert_slot}

-- A new entry: in use, with members that fit.
pub record IsNew (child kind : ℕ) (name : List ℕ) : Type 0 where
  pub used : 0 < child
  pub word : child < 2 ^ 32
  pub kind_byte : kind < 2 ^ 8
  pub short : length name < 2 ^ 8

-- The entries after the new one was put in: they fill the same bytes, the name is found if it was
-- not there before, and the other names as before.
pub record Entered (child : ℕ) (name : List ℕ) (old new : List Slot) : Type 0 where
  pub roomy : HaveRoom new
  pub same_length : length (block_bytes new) ≡ length (block_bytes old)
  pub others :
      (other : List ℕ) → same_text name other ≡ false → find_slot other new ≡ find_slot other old
  pub found : find_slot name old ≡ next tt → find_slot name new ≡ done child

same_text_refl : (s : List ℕ) → same_text s s ≡ true
unfolding same_text
same_text_refl [] = refl
same_text_refl (c ∷ s) = ground (arith, same_text_refl s)

find_slot_step :
    (name : List ℕ) (x : Slot) (slots : List Slot)
    → find_slot name (x ∷ slots) ≡ (if holds name x then done x.inode else find_slot name slots)
unfolding find_slot
find_slot_step name x slots = refl

no_result :
    (c : Bool) (i : ℕ) {t : Visit (Unit {0}) ℕ}
    → (if c then done i else t) ≡ next tt
    → (c ≡ false) × (t ≡ next tt)
no_result true i h = absurd (ground (arith, h))
no_result false i h = (refl, h)

block_bytes_step :
    (x : Slot) (slots : List Slot)
    → length (block_bytes (x ∷ slots)) ≡ slot_len x + length (block_bytes slots)
unfolding block_bytes
block_bytes_step x slots =
    length-append (slot_bytes x) (block_bytes slots)
    ∙ ap (λ (n : ℕ). n + length (block_bytes slots)) (length-slot_bytes x)

module _ (child kind : ℕ) (name : List ℕ) (v : IsNew child kind name) where
  holds_other :
      (other spare : List ℕ)
      → same_text name other ≡ false
      → holds other (record { inode = child; kind = kind; name = name; spare = spare }) ≡ false
  holds_other other spare e = ground (arith, e)

  holds_self :
      (spare : List ℕ)
      → holds name (record { inode = child; kind = kind; name = name; spare = spare }) ≡ true
  holds_self spare = ground (arith, v.used, same_text_refl name)

  -- An entry of the name comes before the others.
  found_first :
      (spare : List ℕ) (slots : List Slot)
      → find_slot name (record { inode = child; kind = kind; name = name; spare = spare } ∷ slots)
        ≡ done child
  found_first spare slots = find_slot_step name _ slots ∙ rw (holds_self spare) refl

  passed :
      (other spare : List ℕ) (slots : List Slot)
      → same_text name other ≡ false
      → find_slot other (record { inode = child; kind = kind; name = name; spare = spare } ∷ slots)
        ≡ find_slot other slots
  passed other spare slots e = find_slot_step other _ slots ∙ rw (holds_other other spare e) refl

  -- A new entry has room for its name where it is long enough.
  new-HasRoom :
      (spare : List ℕ)
      → dir_entry_min_size (length name) ≤ 8 + length name + length spare
      → 8 + length name + length spare < 2 ^ 16
      → HasRoom (record { inode = child; kind = kind; name = name; spare = spare })
  new-HasRoom spare lo hi = record {
    valid = record { inode = v.word; kind = v.kind_byte; name = v.short; len = hi };
    room = new_used;
  }
    where
      new_used :
          used_len (record { inode = child; kind = kind; name = name; spare = spare })
          ≤ 8 + length name + length spare
      new_used = ground (arith, v.used, lo)

  module _ (x : Slot) (slots : List Slot) (r : HasRoom x) (rs : HaveRoom slots)
      (f : fits name x ≡ true) where
    enough : dir_entry_min_size (length name) ≤ slot_len x - used_len x
    enough = leb→le _ _ f

    filled_len : slot_len (filled child kind name x) ≡ slot_len x
    filled_len = omega (
      arith,
      enough,
      dir_entry_min_size-le (length name),
      length-append x.name x.spare,
      length-drop (length name) (x.name ++ x.spare),
    )

    into_unused :
        (x.inode == 0) ≡ true → Entered child name (x ∷ slots) (filled child kind name x ∷ slots)
    into_unused e = record {
      roomy = (
        new-HasRoom (drop (length name) (x.name ++ x.spare)) (omega (arith, enough, filled_len))
            (omega (arith, filled_len, r.valid.len)),
        rs,
      );
      same_length =
          block_bytes_step (filled child kind name x) slots
          ∙ ap (λ (n : ℕ). n + length (block_bytes slots)) filled_len
          ∙ sym (block_bytes_step x slots);
      others = λ other o. passed other _ slots o ∙ sym (skipped other);
      found = λ n. found_first _ slots;
    }
      where
        skipped : (other : List ℕ) → find_slot other (x ∷ slots) ≡ find_slot other slots
        skipped other =
            let not_held : holds other x ≡ false = ground (arith, e) in
            find_slot_step other x slots ∙ rw not_held refl

    module _ (e : (x.inode == 0) ≡ false) where
      x_used : used_len x ≡ dir_entry_min_size (length x.name)
      x_used = ground (arith, e)

      cut_len : slot_len (cut_short x) ≡ dir_entry_min_size (length x.name)
      cut_len = omega (
        arith,
        x_used,
        r.room,
        dir_entry_min_size-le (length x.name),
        length-take (pad x) x.spare,
      )

      behind_len :
          slot_len (behind child kind name x) + dir_entry_min_size (length x.name) ≡ slot_len x
      behind_len = omega (
        arith,
        x_used,
        r.room,
        enough,
        dir_entry_min_size-le (length x.name),
        dir_entry_min_size-le (length name),
        length-drop (pad x) x.spare,
        length-drop (8 + length name) (drop (pad x) x.spare),
      )

      cut-HasRoom : HasRoom (cut_short x)
      cut-HasRoom = record {
        valid = record {
          inode = r.valid.inode;
          kind = r.valid.kind;
          name = r.valid.name;
          len = omega (arith, cut_len, x_used, r.room, r.valid.len);
        };
        room = omega (arith, cut_len, x_used);
      }

      into_used : Entered child name (x ∷ slots) (cut_short x ∷ behind child kind name x ∷ slots)
      into_used = record {
        roomy = (
          cut-HasRoom,
          (
            new-HasRoom (drop (8 + length name) (drop (pad x) x.spare))
                (omega (arith, enough, behind_len, x_used))
                (omega (arith, behind_len, r.valid.len)),
            rs,
          ),
        );
        same_length = omega (
          arith,
          cut_len,
          behind_len,
          block_bytes_step (cut_short x) (behind child kind name x ∷ slots),
          block_bytes_step (behind child kind name x) slots,
          block_bytes_step x slots,
        );
        others = λ other o.
            find_slot_step other (cut_short x) (behind child kind name x ∷ slots)
            ∙ ap (λ (t : Visit (Unit {0}) ℕ). if holds other x then done x.inode else t)
                (passed other _ slots o)
            ∙ sym (find_slot_step other x slots);
        found = λ n.
            find_slot_step name (cut_short x) (behind child kind name x ∷ slots)
            ∙ ap
                (λ (c : Bool).
                  if c then done x.inode else find_slot name (behind child kind name x ∷ slots))
                (no_result (holds name x) x.inode (sym (find_slot_step name x slots) ∙ n)).0
            ∙ found_first _ slots;
      }

    refit-Entered : Entered child name (x ∷ slots) (refit child kind name x ++ slots)
    refit-Entered =
        if_cases (λ (s : List Slot). Entered child name (x ∷ slots) (s ++ slots)) (x.inode == 0)
          into_unused into_used

  -- An entry before those that the new one is put among.
  cons-Entered :
      (x : Slot) (slots slots' : List Slot)
      → HasRoom x
      → Entered child name slots slots'
      → Entered child name (x ∷ slots) (x ∷ slots')
  cons-Entered x slots slots' r d = record {
    roomy = (r, d.roomy);
    same_length = omega (arith, d.same_length, block_bytes_step x slots, block_bytes_step x slots');
    others = λ other o.
        find_slot_step other x slots'
        ∙ ap (λ (t : Visit (Unit {0}) ℕ). if holds other x then done x.inode else t)
            (d.others other o)
        ∙ sym (find_slot_step other x slots);
    found = λ n.
        let past = no_result (holds name x) x.inode (sym (find_slot_step name x slots) ∙ n) in
        find_slot_step name x slots'
        ∙ ap (λ (c : Bool). if c then done x.inode else find_slot name slots') past.0
        ∙ d.found past.1;
  }

  pub insert_slot-Entered :
      (slots slots' : List Slot)
      → HaveRoom slots
      → insert_slot child kind name slots ≡ some slots'
      → Entered child name slots slots'
  unfolding insert_slot
  insert_slot-Entered [] slots' r e = absurd (ground (arith, e))
  insert_slot-Entered (x ∷ slots) slots' r e = elim (Bool-cases (fits name x)) [
    | inl f ↦
        let here : refit child kind name x ++ slots ≡ slots' = ground (arith, f, e) in
        subst (Entered child name (x ∷ slots)) here (refit-Entered x slots r.0 r.1 f)
    | inr nf ↦ elim (Option-cases (insert_slot child kind name slots)) [
      | inl gone ↦ absurd (ground (arith, nf, gone, e))
      | inr (rest, more) ↦
          let there : x ∷ rest ≡ slots' = ground (arith, nf, more, e) in
          subst (Entered child name (x ∷ slots)) there
            (cons-Entered x slots rest r.0 (insert_slot-Entered slots rest r.1 more))
    ]
  ]
