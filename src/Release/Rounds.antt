-- ===== src/Release/Rounds.antt =====
-- The loop over the last three rounds in `check` of scripts/check-release.py
use tiny_agent.Base.{
  FilePath, is_in, ℕ, ◌+◌, String, Bool, true, false, not, ◌&&◌, ◌||◌, Option, none, some, List, [],
  ◌∷◌, if◌then◌else◌, ◌==◌, str_eq, contains, Bytes, Result, ok, err, guard, type_error,
  value_error, ◌>>=◌, ◌>>◌,
}
use tiny_agent.Json.{Json, natural, text, array, object, index, elements, json_eq}
use tiny_agent.Release.{Site, journeys, is_int, positive, require, checked_file}

-- A round number that continues the one before.
abbrev pub follows : Option ℕ → ℕ → Bool
follows none n = true
follows (some before) n = n == before + 1

-- Lists and dictionaries are no elements of a set.
abbrev pub as_name : Json → Result Json
as_name (array xs) = err (type_error "unhashable type")
as_name (object kvs) = err (type_error "unhashable type")
as_name name = ok name

unfoldable pub names_of : List Json → Result (List Json)
names_of [] = ok []
names_of (x ∷ xs) = do name ← as_name x; more ← names_of xs; ok (name ∷ more)

unfoldable pub has_name : String → List Json → Bool
unfolding json_eq
has_name name [] = false
has_name name (x ∷ xs) = json_eq x (text name) || has_name name xs

unfoldable pub all_named : List Json → List String → Bool
unfolding has_name
all_named found [] = true
all_named found (name ∷ names) = has_name name found && all_named found names

unfoldable pub is_journey : Json → Bool
unfolding contains
is_journey (text name) = contains name journeys
is_journey _ = false

unfoldable pub are_journeys : List Json → Bool
unfolding is_journey
are_journeys [] = true
are_journeys (x ∷ xs) = is_journey x && are_journeys xs

-- `set(found) == set(JOURNEYS)`
unfoldable pub check_names : Json → Result (Unit {0})
unfolding names_of all_named are_journeys elements
check_names found = do
  listed ← elements found
  names ← names_of listed
  guard (are_journeys names && all_named names journeys)
      (value_error "A mandatory journey is missing or misspelled")

-- The round is on the candidate's APK and device.
unfoldable pub check_target : Json → Json → Result (Unit {0})
unfolding index json_eq
check_target candidate run = do
  run_sha256 ← index run "apk_sha256"
  apk ← index candidate "apk"
  sha256 ← index apk "sha256"
  guard (json_eq run_sha256 sha256) (value_error "Round targets a different APK or device")
  run_serial ← index run "serial"
  device ← index candidate "device"
  serial ← index device "serial"
  guard (json_eq run_serial serial) (value_error "Round targets a different APK or device")

module _ (digest : Bytes → String) (site : Site) where
  -- Development needs failing-before/passing-after tests.
  unfoldable pub check_change : Json → Result (Unit {0})
  unfolding index json_eq checked_file
  check_change result = do
    change ← index result "change"
    before ← index change "before_exit"
    guard (is_int before) (value_error "Development needs failing-before/passing-after tests")
    after ← index change "after_exit"
    guard (is_int after && (not (json_eq before (natural 0)) && json_eq after (natural 0)))
        (value_error "Development needs failing-before/passing-after tests")
    diff ← index change "diff"
    path ← checked_file digest site diff
    ok tt

  abbrev pub check_development : String → Json → Result (Unit {0})
  check_development journey result =
      if str_eq journey "fedora-development" then check_change result else ok tt

  -- One journey; the result is `used_logs` behind it.
  unfoldable pub check_journey : Json → String → List FilePath → Result (List FilePath)
  unfolding check_change index json_eq checked_file is_in
  check_journey found journey used = do
    result ← index found journey
    status ← index result "status"
    guard (json_eq status (text "pass")) (value_error "Unpassed journey")
    file ← index result "log"
    log ← checked_file digest site file
    guard (not (is_in log used)) (value_error "Each journey execution needs its own evidence log")
    check_development journey result
    ok (log ∷ used)

  unfoldable pub check_journeys : Json → List String → List FilePath → Result (List FilePath)
  unfolding check_journey
  check_journeys found [] used = ok used
  check_journeys found (journey ∷ rest) used = do
    more ← check_journey found journey used
    check_journeys found rest more

  -- One round; the result is its number, and `used_logs` behind it.
  unfoldable pub check_round : Json → Option ℕ → List FilePath → Json → Result (ℕ × List FilePath)
  unfolding check_target check_names check_journeys index checked_file
  check_round candidate previous used run = do
    sequence ← index run "sequence"
    n ← require (positive sequence) (value_error "Round sequence must be a positive integer")
    guard (follows previous n) (value_error "Final three round numbers are not consecutive")
    check_target candidate run
    found ← index run "journeys"
    check_names found
    logs ← check_journeys found journeys used
    report ← index run "resource_report"
    path ← checked_file digest site report
    ok (n, logs)

  -- The rounds' numbers, and the logs of all of them.
  unfoldable pub check_rounds :
      Json → Option ℕ → List FilePath → List Json → Result (List ℕ × List FilePath)
  unfolding check_round
  check_rounds candidate previous used [] = ok ([], used)
  check_rounds candidate previous used (run ∷ rest) = do
    one ← check_round candidate previous used run
    more ← check_rounds candidate (some one.0) one.1 rest
    ok (one.0 ∷ more.0, more.1)
