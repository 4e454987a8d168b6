-- ===== src/Campaign.antt =====
-- scripts/verify-campaign-apks.py: the builds of the phone and their APKs.
pub mod Run
pub mod Verified
pub mod Inputs
use tiny_agent.Base.{
  FilePath, parts, file_name, replace_char, ℕ, leb, ◌==◌, ◌||◌, if◌then◌else◌, ◌++◌, codes, String,
  ◌<>◌, Bool, true, false, not, ◌&&◌, Option, none, some, List, [], ◌∷◌, map, occurs, starts_with,
  contains, length, words, Bytes, Result, ok, err, guard, ◌>>=◌, ◌>>◌, assertion, index_error,
  type_error, attribute_error,
}
use tiny_agent.Json.{
  Json, text, natural, boolean, array, object, no_fields, field, values_of, index, elements,
  json_eq, has_part, set_field,
}

abbrev pub serial_number : String
serial_number = "000501423003390"

abbrev pub app_package : String
app_package = "io.github.gplaider.tinyagent.debug"

-- `Path(text).parts`, behind the root, on Windows, where the program runs: both slashes separate.
abbrev pub windows_parts : String → FilePath
windows_parts path = parts (replace_char b'\\' "/" path)

-- `content.strip()` of bytes
abbrev is_ascii_space : ℕ → Bool
is_ascii_space c = leb 9 c && leb c 13 || c == 32

abbrev trim_left : Bytes → Bytes
trim_left [] = []
trim_left (b ∷ bs) = if is_ascii_space b then trim_left bs else b ∷ bs

abbrev is_empty : Bytes → Bool
is_empty [] = true
is_empty (b ∷ bs) = false

abbrev trim_right : Bytes → Bytes
trim_right [] = []
trim_right (b ∷ bs) =
    let rest = trim_right bs in if is_ascii_space b && is_empty rest then [] else b ∷ rest

abbrev pub trim : Bytes → Bytes
trim content = trim_left (trim_right content)

-- The name of a run on the command line.
unfoldable pub is_run_name : String → Bool
is_run_name run = not (occurs "/" run) && (not (occurs "\\" run) && occurs "-build-" run)

abbrev pub folder_file : String → String → FilePath
folder_file run name = "evidence" ∷ "build-campaign" ∷ run ∷ name ∷ []

abbrev pub apk_file : String → String → FilePath
apk_file run path = "artifacts" ∷ "deepseek-campaign" ∷ run ∷ file_name (windows_parts path) ∷ []

-- The build has passed.
unfoldable pub check_build : Json → Result (Unit {0})
unfolding index json_eq
check_build report = do
  status ← index report "status"
  guard (json_eq status (text "passed")) (assertion "")
  code ← index report "exit_code"
  guard (json_eq code (natural 0)) (assertion "")

abbrev pub listed_apks : Json → Bool → Result (List Json)
listed_apks report true = do found ← index report "apks"; elements found
listed_apks report false = do apk ← index report "apk"; ok (apk ∷ [])

-- `report['apks'] if 'apks' in report else [report['apk']]`
unfoldable pub apks_of : Json → Result (List Json)
unfolding index elements has_part
apks_of report = do has ← has_part "apks" report; listed_apks report has

abbrev pub as_path : Json → Result String
as_path (text path) = ok path
as_path _ = err (attribute_error "startswith")

-- The path of an APK, which is below that of the builds.
unfoldable pub apk_path : Json → Result String
unfolding index contains
apk_path apk = do
  found ← index apk "path"
  path ← as_path found
  guard
      (starts_with path "/workspace/tinyagent-six-builds/"
        && not (contains ".." (windows_parts path)))
      (assertion "")
  ok path

-- What was copied is what the report says.
unfoldable pub check_copy : (Bytes → String) → Json → Bytes → Result (Unit {0})
unfolding index json_eq
check_copy digest apk content = do
  sha ← index apk "sha256"
  guard (json_eq (text (digest content)) sha) (assertion "")
  size ← index apk "size"
  guard (json_eq (natural (length content)) size) (assertion "")

-- `text.split()[0]`
abbrev pub first_word : List String → Result String
first_word [] = err (index_error "list index out of range")
first_word (word ∷ rest) = ok word

-- `dict(apk, local_path=str(dest), zip_verified=True)`
abbrev pub verified_json : Json → String → Result Json
verified_json (object found) local_path = ok (
    object
      (set_field "zip_verified" (boolean true) (set_field "local_path" (text local_path) found)))
verified_json _ local_path = err (type_error "object is not a mapping")

unfoldable pub result_json : String → List Json → Json
result_json run apks = object (
    field "run" (text run) (
      field "device" (text serial_number) (
        field "apks" (array (values_of apks)) (
          field "scope"
            (text "Fresh run log and phone/host hash and ZIP checks; no install or launch")
            no_fields))))
