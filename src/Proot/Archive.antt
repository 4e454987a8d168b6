-- ===== src/Proot/Archive.antt =====
-- `ar_members` of scripts/stage-proot.py
use Prim.Native.Char.{code}
use tiny_agent.Base.{
  codes, strip, slice, take, drop, bytes_eq, length, starts_with, ℕ, zero, suc, ◌+◌, ◌-◌, ◌*◌, ◌%◌,
  String, Bool, true, false, ◌&&◌, ◌||◌, Option, none, some, [], ◌∷◌, leb, ◌==◌, if◌then◌else◌,
  str_eq, Bytes, Exception, Result, ok, err, assertion, value_error, stop_iteration,
}

-- What a whole number in a text can be.
pub data Whole : Type 0 where
  plus minus : ℕ → Whole

abbrev pub is_digit : ℕ → Bool
is_digit c = leb b'0' c && leb c b'9'

-- Digits, with a single underscore between two: the value so far, and whether a digit is before.
abbrev pub digits_value : ℕ → Bool → Bytes → Option ℕ
digits_value value before [] = if before then some value else none
digits_value value before (c ∷ cs) =
    let next = digits_value (value * 10 + (c - b'0')) true cs in
    let rest = digits_value value false cs in
    if is_digit c then next else if c == b'_' && before then rest else none

abbrev pub with_sign : (ℕ → Whole) → Option ℕ → Option Whole
with_sign sign none = none
with_sign sign (some n) = some (sign n)

abbrev pub signed : Bytes → Option Whole
signed [] = none
signed (c ∷ cs) =
    if c == b'+'
    then with_sign plus (digits_value 0 false cs)
    else if c == b'-'
    then with_sign minus (digits_value 0 false cs)
    else with_sign plus (digits_value 0 false (c ∷ cs))

abbrev pub is_blank : ℕ → Bool
is_blank c = leb 9 c && leb c 13 || c == 32

abbrev pub without_left : Bytes → Bytes
without_left [] = []
without_left (c ∷ cs) = if is_blank c then without_left cs else c ∷ cs

abbrev pub cons_right : ℕ → Bytes → Bytes
cons_right c [] = if is_blank c then [] else c ∷ []
cons_right c (d ∷ ds) = c ∷ (d ∷ ds)

abbrev pub without_right : Bytes → Bytes
without_right [] = []
without_right (c ∷ cs) = cons_right c (without_right cs)

abbrev pub or_value_error : Option Whole → Result Whole
or_value_error none = err (value_error "invalid literal for int() with base 10")
or_value_error (some n) = ok n

-- `int(text)`
abbrev pub read_int : Bytes → Result Whole
read_int cs = or_value_error (signed (without_left (without_right cs)))

-- `0 <= size <= most`
abbrev pub within : ℕ → Whole → Option ℕ
within most (plus n) = if leb n most then some n else none
within most (minus n) = if n == 0 then some 0 else none

-- `text.rstrip('/')`
abbrev pub strip_slashes : String → String
strip_slashes String.[] = ""
strip_slashes (String.◌∷◌ c s) =
    let rest = strip_slashes s in if code c == b'/' && str_eq rest "" then "" else String.◌∷◌ c rest

-- What the generator yields: members, and its end or an exception. `stuck` stands for no fuel.
pub data Members : Type 0 where
  done stuck : Members
  failed : Exception → Members
  member : String → Bytes → Members → Members

abbrev pub header_end : Bytes
header_end = b'`' ∷ 10 ∷ []

abbrev pub is_header : Bytes → Bool
is_header header = length header == 60 && bytes_eq (drop 58 header) header_end

-- `bytes.decode()`
module _ (decode : Bytes → Result String) where
  abbrev pub name_of : Bytes → Result String
  name_of header = elim (decode (take 16 header)) [
    | err x ↦ err x
    | ok s ↦ ok (strip_slashes (strip s))
  ]

  -- The name and the content of the member at an offset.
  abbrev pub member_with : Bytes → ℕ → Option ℕ → Result String → Result (String × Bytes)
  member_with content offset none name = err (assertion "")
  member_with content offset (some size) (err x) = err x
  member_with content offset (some size) (ok name) =
      ok (name, slice content (offset + 60) (offset + 60 + size))

  abbrev pub sized_member : Bytes → ℕ → Bytes → Result Whole → Result (String × Bytes)
  sized_member content offset header (err x) = err x
  sized_member content offset header (ok size) =
      member_with content offset (within (length content - (offset + 60)) size) (name_of header)

  unfoldable pub member_at : Bytes → ℕ → Result (String × Bytes)
  unfolding slice bytes_eq
  member_at content offset =
      let header = slice content offset (offset + 60) in
      if is_header header
      then sized_member content offset header (read_int (slice header 48 58))
      else err (assertion "")

  abbrev pub after_member : ℕ → Bytes → ℕ
  after_member offset found = offset + 60 + (length found + length found % 2)

  unfoldable pub members_from : ℕ → Bytes → ℕ → Members
  unfolding member_at
  members_from zero content offset = elim (leb (length content) offset) [
    | true ↦ done
    | false ↦ stuck
  ]
  members_from (suc fuel) content offset = elim (leb (length content) offset) [
    | true ↦ done
    | false ↦ elim (member_at content offset) [
      | err x ↦ failed x
      | ok (name, found) ↦ member name found (members_from fuel content (after_member offset found))
    ]
  ]

  abbrev pub magic : Bytes
  magic = codes "!<arch>\n"

  unfoldable pub ar_members : Bytes → Members
  unfolding members_from bytes_eq
  ar_members content =
      if bytes_eq (take 8 content) magic
      then members_from (length content) content 8
      else failed (assertion "")

-- `next(content for member, content in ... if member.startswith('data.tar.'))`
unfoldable pub first_data : Members → Result Bytes
first_data done = err (stop_iteration "")
first_data stuck = err (stop_iteration "")
first_data (failed x) = err x
first_data (member name content rest) =
    let later = first_data rest in if starts_with name "data.tar." then ok content else later
