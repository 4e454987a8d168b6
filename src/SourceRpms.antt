-- ===== src/SourceRpms.antt =====
-- scripts/collect-dnfast-library-sources.py: names, pins, transfers and records of source packages.
pub mod Run
pub mod Names
pub mod Stored
pub mod Spared
pub mod Rounds
pub mod Collected
use tiny_agent.Base.{
  FilePath, ℕ, ◌*◌, ◌-◌, ◌+◌, suc, String, ◌<>◌, Bool, true, false, ◌&&◌, ◌||◌, Option, none, some,
  List, [], ◌∷◌, ◌++◌, map, if◌then◌else◌, leb, ltb, ◌==◌, codes, every, is_alphanumeric, ends_with,
  length, Bytes, Result, ok, err, guard, ◌>>=◌, ◌>>◌, traverse, assertion, value_error, type_error,
}
use Prim.Native.Char.{code}
use tiny_agent.Json.{
  Json, text, natural, boolean, array, object, no_fields, field, values_of, values_list, characters,
  index, elements, json_eq, has_part, is_hashable,
}
use tiny_agent.Snapshot.Order.{sorted_set}
use tiny_agent.Upstream.{Body, end, broken, piece}

-- `[A-Za-z0-9_.+~-]`
abbrev pub is_rpm_code : ℕ → Bool
is_rpm_code c =
    is_alphanumeric c || (c == b'_' || (c == b'.' || (c == b'+' || (c == b'~' || c == b'-'))))

-- `re.fullmatch(r'[A-Za-z0-9_.+~-]+\.src\.rpm', filename)`
unfoldable pub is_source_rpm : String → Bool
unfolding every
is_source_rpm name =
    every is_rpm_code (codes name) && (ends_with name ".src.rpm" && ltb 8 (length (codes name)))

-- `name[:-count]`
abbrev pub drop_last : ℕ → String → String
drop_last count String.[] = ""
drop_last count (String.◌∷◌ c s) =
    let rest = drop_last count s in
    if leb (suc (length (codes s))) count then "" else String.◌∷◌ c rest

-- What stands before the last dash, and behind it.
abbrev pub split_dash : String → Option (String × String)
split_dash String.[] = none
split_dash (String.◌∷◌ c s) = elim (split_dash s) [
  | some (head, tail) ↦ some (String.◌∷◌ c head, tail)
  | none ↦ if code c == b'-' then some ("", s) else none
]

abbrev pub or_few : {A : Type 0} → Option A → Result A
or_few none = err (value_error "not enough values to unpack (expected 3)")
or_few (some a) = ok a

-- `name, version, release = filename[:-8].rsplit('-', 2)`
unfoldable pub name_parts : String → Result (String × String × String)
name_parts filename = do
  (rest, release) ← or_few (split_dash (drop_last 8 filename))
  (name, version) ← or_few (split_dash rest)
  ok (name, version, release)

unfoldable pub url_of : String → String → String → String → String
url_of name version release filename =
    "https://kojipkgs.fedoraproject.org/packages/"
    <> (name <> ("/" <> (version <> ("/" <> (release <> ("/src/" <> filename))))))

-- `destination / filename`, and its `with_suffix('.part')`
abbrev pub rpm_file : String → FilePath
rpm_file name = "artifacts" ∷ "native-sources" ∷ "rpms" ∷ name ∷ []

abbrev pub part_file : String → FilePath
part_file name = "artifacts" ∷ "native-sources" ∷ "rpms" ∷ (drop_last 4 name <> ".part") ∷ []

abbrev pub max_rpm : ℕ
max_rpm = 512 * 1024 * 1024

-- What the loop over the blocks of a response leaves in the part, and how it ends.
unfoldable pub receive : Body → Bytes → Bytes × Result (Unit {0})
receive end part = (part, ok tt)
receive (broken x) part = (part, err x)
receive (piece [] rest) part = (part, ok tt)
receive (piece (b ∷ bs) rest) part =
    let more = receive rest (part ++ (b ∷ bs)) in
    if ltb max_rpm (length part + length (b ∷ bs))
    then (part, err (value_error "Source RPM exceeds 512 MiB limit"))
    else more

-- `known += rows`
unfoldable pub extend : Json → Json → Result (List Json)
unfolding elements
extend (array xs) rows = do ys ← elements rows; ok (values_list xs ++ ys)
extend (text s) (text t) = ok (characters (s <> t))
extend _ rows = err (type_error "unsupported operand type(s) for +=")

-- The rows with their names as keys.
abbrev pub Known : Type 0
Known = List (Json × Json)

unfoldable pub keyed_row : Json → Bool → Result Known
unfolding index
keyed_row row false = ok []
keyed_row row true = do
  key ← index row "source_rpm"
  guard (is_hashable key) (type_error "unhashable type")
  ok ((key, row) ∷ [])

-- `{row['source_rpm']: row for row in known if 'sha256' in row}`
unfoldable pub keyed_rows : List Json → Result Known
unfolding keyed_row has_part
keyed_rows [] = ok []
keyed_rows (row ∷ rows) = do
  has ← has_part "sha256" row
  here ← keyed_row row has
  rest ← keyed_rows rows
  ok (here ++ rest)

-- `known.get(filename)`: of rows with one name the last counts. A row that is kept is not empty.
unfoldable pub known_row : Known → String → Option Json
unfolding json_eq
known_row [] name = none
known_row ((key, row) ∷ rest) name = elim (known_row rest name) [
  | some found ↦ some found
  | none ↦ if json_eq key (text name) then some row else none
]

abbrev pub name_of : Json → Result Json
name_of package_ = do
  name ← index package_ "source_rpm"
  guard (is_hashable name) (type_error "unhashable type")
  ok name

abbrev pub as_name : Json → Result String
as_name (text name) = ok name
as_name _ = err (type_error "expected string or bytes-like object")

-- `sorted({package['source_rpm'] for package in packages})`, whose members are matched as texts.
unfoldable pub wanted_names : Json → Result (List String)
unfolding index elements traverse sorted_set
wanted_names packages = do
  found ← elements packages
  values ← traverse name_of found
  names ← traverse as_name values
  ok (sorted_set names)

-- What a row that is known says of the address and of the digest.
unfoldable pub check_row : Option Json → String → String → String → Result (Unit {0})
unfolding index json_eq
check_row none url sha message = ok tt
check_row (some row) url sha message = do
  known_url ← index row "url"
  guard (json_eq known_url (text url)) (assertion message)
  known_sha ← index row "sha256"
  guard (json_eq known_sha (text sha)) (assertion message)

-- A member of `records`.
pub data Row : Type 0 where
  collected : (source_rpm url : String) (bytes : ℕ) (sha256 : String) → Row
  failed : (source_rpm url error : String) → Row

abbrev pub row_json : Row → Json
row_json (collected name url bytes sha) = object (
    field "source_rpm" (text name) (
      field "url" (text url) (
        field "bytes" (natural bytes)
          (field "sha256" (text sha) (field "signature_verified" (boolean false) no_fields)))))
row_json (failed name url error) =
    object (
      field "source_rpm" (text name)
        (field "url" (text url) (field "error" (text error) no_fields)))

-- `'sha256' in row`
abbrev pub has_digest : Row → Bool
has_digest (collected name url bytes sha) = true
has_digest (failed name url error) = false

unfoldable pub all_have_digests : List Row → Bool
all_have_digests [] = true
all_have_digests (row ∷ rows) = has_digest row && all_have_digests rows

-- `report['complete']`
unfoldable pub is_complete : List String → List Row → Bool
unfolding all_have_digests
is_complete wanted rows = length rows == length wanted && all_have_digests rows

abbrev pub scope : String
scope =
    "Exact source RPM filenames from the original build image; HTTPS downloads, no RPM signature verification"

unfoldable pub report_json : List String → List Row → Json
unfolding is_complete
report_json wanted rows = object (
    field "scope" (text scope) (
      field "expected" (natural (length wanted)) (
        field "sources" (array (values_of (map row_json rows)))
          (field "complete" (boolean (is_complete wanted rows)) no_fields))))
