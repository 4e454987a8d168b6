-- ===== src/Crates.antt =====
-- scripts/collect-dnfast-cargo-sources.py: the export of locked crate sources.
pub mod Run
pub mod Exported
pub mod Notices
pub mod Noticed
pub mod NoticesRun
use tiny_agent.Base.{
  ℕ, ◌*◌, String, ◌<>◌, Bool, true, false, not, ◌&&◌, ◌||◌, List, [], ◌∷◌, ◌++◌, leb, ltb, ◌==◌,
  length, codes, ends_with, Bytes, Result, ok, err, type_error, attribute_error, value_error, guard,
  ◌>>=◌, ◌>>◌,
}
use tiny_agent.Json.{
  Json, text, natural, boolean, array, object, no_fields, field, values_of, index, json_eq,
}

abbrev pub registry : String
registry = "registry+https://github.com/rust-lang/crates.io-index"

-- `[A-Za-z0-9_.+-]`
abbrev pub is_crate_code : ℕ → Bool
is_crate_code c =
    (leb b'A' c && leb c b'Z')
    || ((leb b'a' c && leb c b'z')
        || ((leb b'0' c && leb c b'9') || (c == b'_' || (c == b'.' || (c == b'+' || c == b'-')))))

unfoldable pub are_crate_codes : List ℕ → Bool
are_crate_codes [] = true
are_crate_codes (c ∷ cs) = is_crate_code c && are_crate_codes cs

-- `re.fullmatch(r'[A-Za-z0-9_.+-]+\.crate', name)`
unfoldable pub is_crate_file : String → Bool
unfolding are_crate_codes
is_crate_file name =
    are_crate_codes (codes name) && (ends_with name ".crate" && ltb 6 (length (codes name)))

abbrev pub as_part : Json → Result String
as_part (text s) = ok s
as_part _ = err (type_error "can only concatenate str to str")

-- The name and the version of a package.
unfoldable pub identity_of : Json → Result (String × String)
unfolding index
identity_of locked = do
  found ← index locked "name"
  name ← as_part found
  given ← index locked "version"
  version ← as_part given
  ok (name, version)

abbrev pub crate_file : String → String → String
crate_file name version = name <> ("-" <> (version <> ".crate"))

abbrev pub as_source : Json → Result String
as_source (text s) = ok s
as_source _ = err (attribute_error "startswith")

abbrev pub max_crate : ℕ
max_crate = 32 * 1024 * 1024

-- A row of `records`.
pub record Row : Type 0 where
  pub name : String
  pub version : String
  pub source : String
  pub sha256 : String
  pub bytes : ℕ

-- What becomes of a locked package: it is part of the workspace, it is not there, or it is packed.
pub data Outcome : Type 0 where
  skipped : Outcome
  missing : String → Json → Outcome
  packed : Row → Bytes → Outcome

abbrev pub row_json : Row → Json
row_json row = object (
    field "name" (text row.name) (
      field "version" (text row.version) (
        field "source" (text row.source)
          (field "sha256" (text row.sha256) (field "bytes" (natural row.bytes) no_fields)))))

unfoldable pub rows_of : List Outcome → List Json
rows_of [] = []
rows_of (packed row content ∷ outcomes) = row_json row ∷ rows_of outcomes
rows_of (_ ∷ outcomes) = rows_of outcomes

unfoldable pub missing_of : List Outcome → List Json
missing_of [] = []
missing_of (missing name source ∷ outcomes) =
    object (field "name" (text name) (field "source" source no_fields)) ∷ missing_of outcomes
missing_of (_ ∷ outcomes) = missing_of outcomes

-- The members of the archive, with the lock file as the last.
unfoldable pub archive_of : Bytes → List Outcome → List (String × Bytes)
archive_of lock [] = ("Cargo.lock", lock) ∷ []
archive_of lock (packed row content ∷ outcomes) =
    ("registry/" <> crate_file row.name row.version, content) ∷ archive_of lock outcomes
archive_of lock (_ ∷ outcomes) = archive_of lock outcomes

abbrev pub has_none : List Json → Bool
has_none [] = true
has_none (v ∷ vs) = false

abbrev pub scope : String
scope =
    "Exact locked crate sources, including dev and target-specific dependencies; not a compiled dependency or notice inventory"

unfoldable pub report_json : (Bytes → String) → Bytes → List Outcome → Bytes → Json
unfolding rows_of missing_of
report_json digest lock outcomes archive = object (
    field "lock_sha256" (text (digest lock)) (
      field "packages" (array (values_of (rows_of outcomes))) (
        field "missing" (array (values_of (missing_of outcomes))) (
          field "complete_locked_registry_sources" (boolean (has_none (missing_of outcomes))) (
            field "archive_sha256" (text (digest archive))
              (field "scope" (text scope) no_fields))))))

-- The digest that the lock file has for a crate.
unfoldable pub check_crate : (Bytes → String) → Json → String → Bytes → Result (Unit {0})
unfolding index json_eq
check_crate digest locked message content = do
  expected ← index locked "checksum"
  guard (json_eq (text (digest content)) expected) (value_error message)

-- A download is bounded too.
unfoldable pub check_download : (Bytes → String) → Json → String → Bytes → Result (Unit {0})
unfolding check_crate
check_download digest locked file content = do
  guard (leb (length content) max_crate)
      (value_error ("Downloaded source checksum mismatch: " <> file))
  check_crate digest locked ("Downloaded source checksum mismatch: " <> file) content
