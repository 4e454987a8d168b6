-- ===== src/Workloads.antt =====
-- benchmarks/package-manager/checkout-workloads.py: the pinned checkouts, and their reports.
pub mod Run
pub mod Checked
pub mod Reported
pub mod Returned
use tiny_agent.Base.{
  FilePath, ◌++◌, ℕ, ◌*◌, ◌^◌, String, ◌<>◌, Bool, true, false, ◌&&◌, ◌||◌, Option, none, some,
  List, [], map, ◌∷◌, leb, ◌==◌, ltb, length, str_eq, starts_with, codes, is_alphanumeric,
  is_hex_text, every, replace_char, decimal, Bytes, Result, ok, err, guard, ◌>>=◌, ◌>>◌, assertion,
  type_error, attribute_error,
}
use tiny_agent.Json.{
  Json, Fields, no_fields, field, values_of, text, array, object, keys, values_list, index,
}
use tiny_agent.Host.{Exec, ExitCode}

-- The phone: its environment, its clock, its disk, with the number of bytes that a file can take, and directories, the lock, and `git`, which appends to a log.
-- `seconds` is the rounded difference of two times, `to_lower` that of Python's texts, and `is_letter` says which code points beyond ASCII are alphanumeric.
pub record Phone (W Time : Type 0) : Type 0 where
  pub provider : Option String
  pub machine : String
  pub lock : Exec W (Unit {0})
  pub clock : Exec W Time
  pub seconds : Time → Time → Json
  pub free : Exec W ℕ
  pub room : W → ℕ
  pub has_directory : String → Exec W Bool
  pub run : FilePath → List String → Exec W ExitCode
  pub output : List String → Exec W Bytes
  pub decode : Bytes → Result String
  pub loads : Bytes → Result Json
  pub to_lower : String → String
  pub is_letter : ℕ → Bool

-- What an entry of the manifest says.
pub record Workload : Type 0 where
  pub name : String
  pub commit : String
  pub url : String

abbrev pub is_alphanumeric_in : (ℕ → Bool) → ℕ → Bool
is_alphanumeric_in is_letter c = is_alphanumeric c || (leb 128 c && is_letter c)

-- `name.replace('-', '').isalnum()`
unfoldable pub is_plain : (ℕ → Bool) → String → Bool
unfolding every
is_plain is_letter name =
    let stripped = codes (replace_char b'-' "" name) in
    ltb 0 (length stripped) && every (is_alphanumeric_in is_letter) stripped

abbrev pub as_name : Json → Result String
as_name (text name) = ok name
as_name _ = err (attribute_error "lower")

-- What has no length is a mistake at once. A list or an object of 40 texts that are hexadecimal digits, which the script takes up to the
-- call of git that cannot have it as an argument, is refused here like one of another length.
abbrev pub as_commit : Json → Result String
as_commit (text s) = ok s
as_commit (array _) = err (assertion "")
as_commit (object _) = err (assertion "")
as_commit _ = err (type_error "object has no len()")

abbrev pub as_address : Json → Result String
as_address (text s) = ok s
as_address _ = err (attribute_error "startswith")

abbrev pub is_known_site : String → Bool
is_known_site url =
    starts_with url "https://github.com/" || starts_with url "https://code.videolan.org/"

-- The checks of an entry that stand before the checkout.
unfoldable pub read_workload : (String → String) → (ℕ → Bool) → Json → Result Workload
unfolding index is_plain is_hex_text
read_workload to_lower is_letter workload = do
  given ← index workload "name"
  title ← as_name given
  guard (is_plain is_letter (replace_char b' ' "-" (to_lower title))) (assertion "")
  pinned ← index workload "commit"
  commit ← as_commit pinned
  guard (is_hex_text 40 (codes commit)) (assertion "")
  address ← index workload "url"
  url ← as_address address
  guard (is_known_site url) (assertion "")
  ok (record { name = replace_char b' ' "-" (to_lower title); commit = commit; url = url })

-- `status`, with what comes with it.
pub data Status : Type 0 where
  running : Status
  passed : (submodules : String) → Status
  stopped : (error : String) → Status

pub record Report : Type 0 where
  pub workload : Workload
  pub status : Status
  pub seconds : Option Json

abbrev pub is_passed : Status → Bool
is_passed running = false
is_passed (passed submodules) = true
is_passed (stopped error) = false

abbrev pub all_passed : List Report → Bool
all_passed [] = true
all_passed (report ∷ reports) = is_passed report.status && all_passed reports

abbrev pub seconds_fields : Option Json → Fields
seconds_fields none = no_fields
seconds_fields (some seconds) = field "seconds" seconds no_fields

abbrev pub status_fields : Status → Fields → Fields
status_fields running rest = field "status" (text "running") rest
status_fields (passed submodules) rest = field "status" (text "passed") (
    field "submodules" (text submodules) (
      field "scope" (text "Pinned parent checkout only; submodules and build toolchains pending")
        rest))
status_fields (stopped error) rest =
    field "status" (text "failed") (field "error" (text error) rest)

abbrev pub report_json : Report → Json
report_json report = object (
    field "name" (text report.workload.name) (
      field "commit" (text report.workload.commit) (
        field "url" (text report.workload.url) (
          field "stage" (text "checkout")
            (status_fields report.status (seconds_fields report.seconds))))))

-- What `save` writes.
abbrev pub reports_json : List Report → Json
reports_json reports = array (values_of (map report_json reports))

-- `raise SystemExit(...)` at the end of the program
abbrev pub exit_code : List Report → ℕ
exit_code reports = elim (all_passed reports) [ true ↦ 0 | false ↦ 1 ]

-- `len(document)`
abbrev pub size_of : Json → Result ℕ
size_of (text s) = ok (length (codes s))
size_of (array values) = ok (length (values_list values))
size_of (object fields) = ok (length (keys fields))
size_of _ = err (type_error "object has no len()")

abbrev pub base_text : String
base_text = "/workspace/tinyagent-six-builds"

abbrev pub base_dir : FilePath
base_dir = "workspace" ∷ "tinyagent-six-builds" ∷ []

abbrev pub results_path : FilePath
results_path = "workspace" ∷ "tinyagent-six-builds" ∷ "checkout-results.json" ∷ []

abbrev pub manifest_path : FilePath
manifest_path = "shared" ∷ "workloads.json" ∷ []

-- `str(base / name)`
abbrev pub target_text : String → String
target_text name = base_text <> ("/" <> name)

abbrev pub log_path : String → FilePath
log_path name = base_dir ++ ((name <> "-checkout.log") ∷ [])

abbrev pub min_free : ℕ
min_free = 20 * (1024 ^ 3)
