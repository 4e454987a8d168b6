-- ===== src/Release/Check.antt =====
-- `check` and the main program of scripts/check-release.py
use tiny_agent.Base.{
  suffix, file_name, ℕ, ◌-◌, String, Bool, true, false, none, List, [], ◌∷◌, if◌then◌else◌, ltb,
  str_eq, length, drop, Bytes, Exception, Result, ok, err, guard, type_error, value_error,
  key_error, os_error, file_exists, file_not_found, decode_error, unicode_error, ◌>>=◌, ◌>>◌,
}
use tiny_agent.Json.{
  Json, boolean, natural, text, array, object, values_list, characters, keys, index, get, is_true,
  elements, json_eq,
}
use tiny_agent.Release.{Site, positive, require, check_hex, checked_file}
use tiny_agent.Release.Rounds.{check_rounds}

-- `rounds[-3:]` of what has a length and slices; of a text these are characters, and of a
-- dictionary there are none.
abbrev pub last_three : List Json → Result (List Json)
last_three rounds =
    if ltb (length rounds) 3
    then err (value_error "At least three complete rounds are required")
    else ok (drop (length rounds - 3) rounds)

abbrev not_sliced : List Json → Result (List Json)
not_sliced rounds =
    if ltb (length rounds) 3
    then err (value_error "At least three complete rounds are required")
    else err (type_error "unhashable type: 'slice'")

unfoldable pub last_rounds : Json → Result (List Json)
last_rounds (array rounds) = last_three (values_list rounds)
last_rounds (text rounds) = last_three (characters rounds)
last_rounds (object rounds) = not_sliced (keys rounds)
last_rounds _ = err (type_error "object has no len()")

-- `is False`
abbrev is_false : Json → Bool
is_false (boolean false) = true
is_false _ = false

-- `is not False` of a missing key, too, is true.
unfoldable pub check_clean : Json → Result (Unit {0})
unfolding get
check_clean apk = do
  dirty ← get apk "dirty_source"
  guard (is_false dirty) (value_error "Release source must be recorded as clean")

unfoldable pub check_identities : Json → List String → Result (Unit {0})
unfolding index get is_true
check_identities candidate [] = ok tt
check_identities candidate (name ∷ names) = do
  device ← index candidate "device"
  found ← get device name
  guard (is_true found) (value_error "Missing device identity")
  check_identities candidate names

unfoldable pub check_device : Json → Result (Unit {0})
unfolding check_identities index json_eq
check_device candidate = do
  check_identities candidate ("serial" ∷ "model" ∷ "android" ∷ "abi" ∷ [])
  device ← index candidate "device"
  abi ← index device "abi"
  guard (json_eq abi (text "arm64-v8a")) (value_error "This release gate covers Android ARM64 only")

unfoldable pub any_pass : List Json → Result Bool
unfolding get json_eq
any_pass [] = ok false
any_pass (p ∷ ps) = do
  result ← get p "response_and_tool"
  if json_eq result (text "pass") then ok true else any_pass ps

abbrev pub any_provider : Json → Result Bool
any_provider providers = if is_true providers then (elements providers >>= any_pass) else ok false

-- What is printed when the evidence is complete.
pub record Report : Type 0 where
  pub apk_sha256 : Json
  pub serial : Json
  pub rounds : List ℕ

abbrev pub documents : List String
documents =
    "runtime_manifest" ∷ "harness_report" ∷ "license_report" ∷ "user_guide" ∷ "known_issues" ∷ []

module _ (digest : Bytes → String) (site : Site) where
  unfoldable pub check_apk : Json → Result (Unit {0})
  unfolding index is_true check_hex check_clean checked_file
  check_apk apk = do
    path ← checked_file digest site apk
    guard (str_eq (suffix (file_name path)) ".apk")
        (value_error "Candidate artifact must be an APK")
    signer ← index apk "signer_report"
    signer_path ← checked_file digest site signer
    code ← index apk "version_code"
    version ← require (positive code) (value_error "APK version code and name are required")
    name ← index apk "version_name"
    guard (is_true name) (value_error "APK version code and name are required")
    certificate ← index apk "certificate_sha256"
    check_hex 64 certificate
    commit ← index apk "source_commit"
    check_hex 40 commit
    check_clean apk

  unfoldable pub check_log : Json → Result (Unit {0})
  unfolding index checked_file
  check_log provider = do log ← index provider "log"; path ← checked_file digest site log; ok tt

  abbrev pub check_response : Json → Json → Result (Unit {0})
  unfolding check_log
  check_response provider result =
      if json_eq result (text "pass") then check_log provider else ok tt

  unfoldable pub check_providers : List Json → Result (Unit {0})
  unfolding index get is_true json_eq check_log
  check_providers [] = ok tt
  check_providers (provider ∷ rest) = do
    name ← get provider "name"
    guard (is_true name) (value_error "Provider validation scope is required")
    scope ← get provider "scope"
    guard (is_true scope) (value_error "Provider validation scope is required")
    result ← get provider "response_and_tool"
    check_response provider result
    check_providers rest

  unfoldable pub check_documents : Json → List String → Result (Unit {0})
  unfolding index checked_file
  check_documents candidate [] = ok tt
  check_documents candidate (name ∷ names) = do
    document ← index candidate name
    path ← checked_file digest site document
    check_documents candidate names

  -- The providers, the other documents, and the report.
  unfoldable pub check_rest : Json → List ℕ → Result Report
  unfolding any_pass check_providers check_documents elements is_true index
  check_rest candidate sequences = do
    providers ← index candidate "providers"
    passed ← any_provider providers
    guard passed (value_error "No provider has a recorded response and tool execution")
    listed ← elements providers
    check_providers listed
    check_documents candidate documents
    apk ← index candidate "apk"
    sha256 ← index apk "sha256"
    device ← index candidate "device"
    serial ← index device "serial"
    ok (record { apk_sha256 = sha256; serial = serial; rounds = sequences })

  unfoldable pub check : Json → Result Report
  unfolding index json_eq check_apk check_device last_rounds check_rounds check_rest
  check candidate = do
    schema ← index candidate "schema"
    guard (json_eq schema (natural 1)) (value_error "Unsupported evidence schema")
    apk ← index candidate "apk"
    check_apk apk
    check_device candidate
    rounds ← index candidate "rounds"
    last ← last_rounds rounds
    checked ← check_rounds digest site candidate none [] last
    check_rest candidate checked.0

-- What the main program leaves: the report, the error as a document with status 1, or an
-- exception that is not caught.
pub data Outcome : Type 0 where
  complete : Report → Outcome
  incomplete : Exception → Outcome
  uncaught : Exception → Outcome

-- The subclasses of ValueError, KeyError, TypeError and OSError.
abbrev pub is_caught : Exception → Bool
is_caught (value_error m) = true
is_caught (key_error m) = true
is_caught (type_error m) = true
is_caught (os_error m) = true
is_caught (file_exists m) = true
is_caught (file_not_found m) = true
is_caught (decode_error m) = true
is_caught (unicode_error m) = true
is_caught _ = false

abbrev pub outcome : Result Report → Outcome
outcome (ok report) = complete report
outcome (err x) = if is_caught x then incomplete x else uncaught x

-- `--self-check` is not given; `candidate` is the file as it is read and parsed.
unfoldable pub main : (Bytes → String) → Site → Result Json → Outcome
unfolding check
main digest site candidate = outcome (candidate >>= check digest site)
