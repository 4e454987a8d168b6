-- ===== src/Attribution/Collect.antt =====
-- scripts/collect-dnfast-rpm-notices.py
use tiny_agent.Base.{
  file_name, parts, split, split_lines, str_eq, ℕ, zero, suc, ◌*◌, String, ◌<>◌, Bool, true, false,
  not, ◌&&◌, ◌||◌, Option, none, some, List, [], ◌∷◌, ◌++◌, map, if◌then◌else◌, leb, length, Bytes,
  Result, ok, err, value_error, index_error, type_error, guard, ◌>>=◌, ◌>>◌, traverse, Dict,
  dict_put, dict_at,
}
use tiny_agent.Json.{
  Json, boolean, text, array, object, no_fields, field, values_of, index, items_of,
}
use tiny_agent.Snapshot.Order.{sorted_set}
use tiny_agent.Attribution.{Notice, Row, row_json}

-- The build image: what `rpm` prints for all packages, for one, and of its licence files; and the
-- files at their absolute paths.
pub record Image : Type 0 where
  pub installed : Result String
  pub query : String → Result String
  pub license_files : String → Result String
  pub files : String → Option Bytes

abbrev pub nth_line : ℕ → List String → Result String
nth_line n [] = err (index_error "list index out of range")
nth_line zero (line ∷ lines) = ok line
nth_line (suc n) (line ∷ lines) = nth_line n lines

-- The packages of every source, in the order of the lines.
abbrev pub add_sibling : String → String → Dict (List String) → Dict (List String)
add_sibling source name [] = (source, name ∷ []) ∷ []
add_sibling source name ((key, names) ∷ rest) =
    if str_eq source key
    then (key, names ++ (name ∷ [])) ∷ rest
    else (key, names) ∷ add_sibling source name rest

abbrev pub sibling_columns : List String → Dict (List String) → Result (Dict (List String))
sibling_columns (name ∷ source ∷ []) siblings = ok (add_sibling source name siblings)
sibling_columns _ siblings = err (value_error "wrong number of values to unpack")

unfoldable pub read_siblings : List String → Dict (List String) → Result (Dict (List String))
read_siblings [] siblings = ok siblings
read_siblings (line ∷ lines) siblings =
    sibling_columns (split b'\t' line) siblings >>= read_siblings lines

abbrev pub siblings_of : String → Dict (List String) → List String
siblings_of source [] = []
siblings_of source ((key, names) ∷ rest) =
    if str_eq source key then names else siblings_of source rest

-- `sorted(owners)` sorts these: each path is there once.
abbrev pub names_of : Dict String → List String
names_of [] = []
names_of ((key, owner) ∷ rest) = key ∷ names_of rest

-- `owners.setdefault(path, sibling)`
abbrev pub set_default : String → String → Dict String → Dict String
set_default path owner [] = (path, owner) ∷ []
set_default path owner ((key, found) ∷ rest) =
    if str_eq path key then (key, found) ∷ rest else (key, found) ∷ set_default path owner rest

abbrev pub set_all :
    (String → String → Dict String → Dict String) → String → List String → Dict String → Dict String
set_all set owner [] owners = owners
set_all set owner (path ∷ paths) owners = set_all set owner paths (set path owner owners)

-- The text of a member's name.
abbrev pub member_name : String → String → String → String
member_name name owner path =
    name <> ("/" <> ((if str_eq owner name then "" else owner <> "/") <> file_name (parts path)))

unfoldable pub has_member : String → List Notice → Bool
has_member member [] = false
has_member member (notice ∷ notices) = str_eq notice.member member || has_member member notices

abbrev pub max_notice : ℕ
max_notice = 2 * 1024 * 1024

abbrev pub as_name : Json → Result String
as_name (text s) = ok s
as_name _ = err (type_error "expected str")

abbrev pub has_no : List String → Bool
has_no [] = true
has_no (name ∷ names) = false

abbrev pub has_some : List Notice → Bool
has_some [] = false
has_some (notice ∷ notices) = true

abbrev pub is_complete : Row → Bool
is_complete row = has_some row.notices && has_no row.missing

unfoldable pub all_complete : List Row → Bool
all_complete [] = true
all_complete (row ∷ rows) = is_complete row && all_complete rows

-- What is in the archive so far: its members in order.
abbrev pub Archive : Type 0
Archive = List (String × Bytes)

module _ (digest : Bytes → String) (image : Image) where
  -- The owners of the files of other packages of the same source.
  unfoldable pub sibling_owners : List String → Dict String → Result (Dict String)
  sibling_owners [] owners = ok owners
  sibling_owners (sibling ∷ siblings) owners = do
    printed ← image.license_files sibling
    sibling_owners siblings (set_all set_default sibling (split_lines printed) owners)

  -- The owners, and the paths in the order of the loop. A sibling that is listed twice adds nothing
  -- the second time.
  abbrev pub owners_and_paths :
      String → String → Dict (List String) → List String → Result (Dict String × List String)
  owners_and_paths name source siblings (path ∷ paths) =
      ok (set_all dict_put name (path ∷ paths) [], path ∷ paths)
  owners_and_paths name source siblings [] = do
    owners ← sibling_owners (sorted_set (siblings_of source siblings)) []
    ok (owners, sorted_set (names_of owners))

  -- A notice is added to the archive and to the row.
  abbrev pub add_notice : String → String → Bytes → String → Row × Archive → Result (Row × Archive)
  add_notice name path content owner (row, archive) =
      let member = member_name name owner path in
      guard (not (has_member member row.notices))
        (value_error ("Duplicate notice name: " <> member))
      >> ok (
        record row {
          notices =
              row.notices
              ++ (record {
                path = path;
                owner_package = owner;
                member = member;
                sha256 = digest content;
              }
                  ∷ []);
        },
        archive ++ ((member, content) ∷ []),
      )

  -- One round of the loop over the paths of a package.
  abbrev pub read_notice :
      String → Dict String → String → Option Bytes → Row × Archive → Result (Row × Archive)
  read_notice name owners path none (row, archive) =
      ok (record row { missing = row.missing ++ (path ∷ []) }, archive)
  read_notice name owners path (some content) state = do
    guard (leb (length content) max_notice) (value_error ("Oversized license: " <> path))
    owner ← dict_at path owners
    add_notice name path content owner state

  unfoldable pub read_notices :
      String → Dict String → List String → Row × Archive → Result (Row × Archive)
  unfolding has_member
  read_notices name owners [] state = ok state
  read_notices name owners (path ∷ paths) state =
      read_notice name owners path (image.files path) state >>= read_notices name owners paths

  -- One round of the loop over the packages: the row, and the archive after it.
  unfoldable pub collect_package : Dict (List String) → String → Archive → Result (Row × Archive)
  unfolding sibling_owners read_notices sorted_set
  collect_package siblings name archive = do
    printed ← image.query name
    found ← nth_line 0 (split_lines printed)
    guard (str_eq found name) (value_error ("Build image package mismatch: " <> name))
    listed ← image.license_files name
    source ← nth_line 1 (split_lines printed)
    license ← nth_line 2 (split_lines printed)
    owned ← owners_and_paths name source siblings (split_lines listed)
    read_notices name owned.0 owned.1 (
      record {
        name = name;
        source_rpm = source;
        license_expression = license;
        notices = [];
        missing = [];
      },
      archive,
    )

  unfoldable pub collect_packages :
      Dict (List String) → List String → Archive → Result (List Row × Archive)
  unfolding collect_package
  collect_packages siblings [] archive = ok ([], archive)
  collect_packages siblings (name ∷ names) archive = do
    collected ← collect_package siblings name archive
    rest ← collect_packages siblings names collected.1
    ok (collected.0 ∷ rest.0, rest.1)

  -- The report over the archive's bytes, which the writer of tape archives makes of its members.
  abbrev pub report_json : Json → List Row → Bytes → Json
  report_json commit rows packed = object (
      field "source_commit" commit (
        field "packages" (array (values_of (map row_json rows))) (
          field "notice_archive_sha256" (text (digest packed)) (
            field "complete_notices" (boolean (all_complete rows))
              (field "source_rpms_downloaded" (boolean false) no_fields)))))

  -- The rows, the members of the archive, and the report.
  unfoldable pub collect_attribution : (Archive → Bytes) → Json → Result (List Row × Archive × Json)
  unfolding read_siblings index items_of traverse sorted_set collect_packages all_complete row_json
  collect_attribution pack manifest = do
    printed ← image.installed
    siblings ← read_siblings (split_lines printed) []
    libraries ← index manifest "library_packages"
    values ← items_of libraries
    names ← traverse (λ (row : String × Json). as_name row.1) values
    collected ← collect_packages siblings (sorted_set names) []
    commit ← index manifest "candidate_commit"
    ok (collected.0, collected.1, report_json commit collected.0 (pack collected.1))
