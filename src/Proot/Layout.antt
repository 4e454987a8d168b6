-- ===== src/Proot/Layout.antt =====
-- The members that scripts/stage-proot.py reads lie in the archive one behind the other.
use tiny_agent.Base.{
  slice, take, drop, bytes_eq, length, length-slice, ℕ, zero, suc, ◌+◌, ◌-◌, ◌%◌, ◌≤◌, ◌≡◌, refl,
  sym, ap, ◌∙◌, String, Bool, true, false, Option, none, some, leb, leb→le, if◌then◌else◌, Bytes,
  Result, ok, err, assertion, arith, either_branch, ok_injective, &&_left, ◌==◌, ==_iff,
}
use tiny_agent.Proot.Archive.{
  Whole, plus, minus, Members, done, stuck, failed, member, header_end, within, is_header, read_int,
  name_of, member_with, sized_member, member_at, after_member, members_from, magic, ar_members,
}

module _ (decode : Bytes → Result String) where
  -- From an offset on: a header of 60 bytes, the content, a byte more where its length is odd, and then the next member;
  -- the last reaches the end.
  abbrev pub IsLaidOut : Bytes → ℕ → Members → Type 0
  IsLaidOut content offset done = length content ≤ offset
  IsLaidOut content offset stuck = ⊥
  IsLaidOut content offset (failed x) = Unit
  IsLaidOut content offset (member name found rest) =
      (offset + 60 + length found ≤ length content)
      × (is_header (slice content offset (offset + 60)) ≡ true)
      × (found ≡ slice content (offset + 60) (offset + 60 + length found))
      × IsLaidOut content (offset + 60 + (length found + length found % 2)) rest

  within-le : (most : ℕ) (size : Whole) (n : ℕ) → within most size ≡ some n → n ≤ most
  within-le most (plus k) n h = ground arith
  within-le most (minus k) n h = ground arith

  -- What is at an offset when a member is read there.
  abbrev IsMember : Bytes → ℕ → Bytes → Type 0
  IsMember content offset found =
      (offset + 60 + length found ≤ length content)
      × (is_header (slice content offset (offset + 60)) ≡ true)
      × (found ≡ slice content (offset + 60) (offset + 60 + length found))

  header-le :
      (content : Bytes) (offset : ℕ)
      → is_header (slice content offset (offset + 60)) ≡ true
      → offset + 60 ≤ length content
  header-le content offset h =
      let e =
        &&_left (length (slice content offset (offset + 60)) == 60)
          (bytes_eq (drop 58 (slice content offset (offset + 60))) header_end) h in
      let l = length-slice content offset (offset + 60) in
      let n : length (slice content offset (offset + 60)) ≡ 60 = (==_iff _ 60).0 e in
      omega (arith, l, n)

  found-eq :
      (content found : Bytes) (start size : ℕ)
      → start + size ≤ length content
      → found ≡ slice content start (start + size)
      → (start + length found ≤ length content)
        × (found ≡ slice content start (start + length found))
  found-eq content found start size le e =
      let l : length found ≡ size =
        ap length e ∙ (length-slice content start (start + size) ∙ omega arith) in
      (omega arith, e ∙ ap (λ k. slice content start (start + k)) (sym l))

  member_with-IsMember :
      (content : Bytes) (offset : ℕ) (size : Option ℕ) (name : Result String) (text : String)
      (found : Bytes)
      → is_header (slice content offset (offset + 60)) ≡ true
      → ((n : ℕ) → size ≡ some n → n ≤ length content - (offset + 60))
      → member_with decode content offset size name ≡ ok (text, found)
      → IsMember content offset found
  member_with-IsMember content offset none name text found h f k = cc
  member_with-IsMember content offset (some size) (err x) text found h f k = cc
  member_with-IsMember content offset (some size) (ok name) text found h f k =
      let e = ap (λ (p : String × Bytes). p.1) (ok_injective _ (text, found) k) in
      let room = header-le content offset h in
      let small = f size refl in
      let (le, same) = found-eq content found (offset + 60) size (omega arith) (sym e) in
      (le, h, same)

  sized_member-IsMember :
      (content : Bytes) (offset : ℕ) (size : Result Whole) (text : String) (found : Bytes)
      → is_header (slice content offset (offset + 60)) ≡ true
      → sized_member decode content offset (slice content offset (offset + 60)) size
        ≡ ok (text, found)
      → IsMember content offset found
  sized_member-IsMember content offset (err x) text found h k = cc
  sized_member-IsMember content offset (ok size) text found h k =
      member_with-IsMember content offset (within (length content - (offset + 60)) size)
        (name_of decode (slice content offset (offset + 60))) text found h
        (λ n e. within-le (length content - (offset + 60)) size n e) k

  member_at-IsMember :
      (content : Bytes) (offset : ℕ) (text : String) (found : Bytes)
      → member_at decode content offset ≡ ok (text, found)
      → IsMember content offset found
  unfolding member_at
  member_at-IsMember content offset text found h =
      go (is_header (slice content offset (offset + 60))) refl h
    where
      go :
          (b : Bool)
          → is_header (slice content offset (offset + 60)) ≡ b
          → (if b
              then sized_member decode content offset
                  (slice content offset (offset + 60))
                  (read_int (slice (slice content offset (offset + 60)) 48 58))
              else err (assertion ""))
            ≡ ok (text, found)
          → IsMember content offset found
      go true e k =
          sized_member-IsMember content offset
            (read_int (slice (slice content offset (offset + 60)) 48 58)) text found e k
      go false e k = cc

  members_from-IsLaidOut :
      (fuel : ℕ) (content : Bytes) (offset : ℕ)
      → length content ≤ offset + fuel
      → IsLaidOut content offset (members_from decode fuel content offset)
  unfolding members_from
  members_from-IsLaidOut zero content offset le = go (leb (length content) offset) refl
    where
      go :
          (b : Bool)
          → leb (length content) offset ≡ b
          → IsLaidOut content offset (elim b [ true ↦ done | false ↦ stuck ])
      go true e = leb→le (length content) offset e
      go false e = ground arith
  members_from-IsLaidOut (suc fuel) content offset le =
      go (leb (length content) offset) refl
        λ found. members_from-IsLaidOut fuel content (after_member decode offset found)
    where
      rest : Bytes → Members
      rest found = members_from decode fuel content (after_member decode offset found)

      Rest : Type 0
      Rest =
          (found : Bytes)
          → length content ≤ after_member decode offset found + fuel
          → IsLaidOut content (after_member decode offset found) (rest found)

      read :
          (found : Result (String × Bytes))
          → member_at decode content offset ≡ found
          → Rest
          → IsLaidOut content offset
              (elim found [ err x ↦ failed x | ok (name, part) ↦ member name part (rest part) ])
      read (err x) e ih = tt
      read (ok (name, part)) e ih =
          let (room, header, same) = member_at-IsMember content offset name part e in
          (room, header, same, ih part (omega arith))

      go :
          (b : Bool)
          → leb (length content) offset ≡ b
          → Rest
          → IsLaidOut content offset (elim b [
            | true ↦ done
            | false ↦ elim (member_at decode content offset) [
              | err x ↦ failed x
              | ok (name, part) ↦ member name part (rest part)
            ]
          ])
      go true e ih = leb→le (length content) offset e
      go false e ih = read (member_at decode content offset) refl ih

  -- The generator ends, and what it yields is laid out from the ninth byte on: there is no gap and no
  -- overlap, and nothing is left out but by an exception.
  pub ar_members-IsLaidOut : (content : Bytes) → IsLaidOut content 8 (ar_members decode content)
  unfolding ar_members
  ar_members-IsLaidOut content =
      either_branch (IsLaidOut content 8) (bytes_eq (take 8 content) (magic decode))
        (members_from-IsLaidOut (length content) content 8 (omega arith)) (λ _. tt)
