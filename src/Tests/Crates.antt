-- ===== src/Tests/Crates.antt =====
-- An export of scripts/collect-dnfast-cargo-sources.py with four locked packages.
use tiny_agent.Base.{
  FilePath, path_eq, ◌++◌, ◌≡◌, refl, String, true, false, none, some, List, [], ◌∷◌, if◌then◌else◌,
  ◌==◌, str_eq, Bytes, Result, ok,
}
use tiny_agent.Json.{Json, text, array, values_of, object, no_fields, field, index, elements}
use tiny_agent.Host.{Host}
use tiny_agent.Host.Rules.{AreRounds}
use tiny_agent.Crates.{Outcome, registry, archive_of, report_json, is_crate_file}
use tiny_agent.Crates.Run.{export_crates}
use tiny_agent.Crates.Exported.{IsExported, export_crates-AreRounds}

abbrev digest : Bytes → String
digest [] = "none"
digest (x ∷ xs) = if x == 4 then "four" else if x == 5 then "five" else "other"

abbrev locked : String → String → String → Json
locked name source checksum = object (
    field "name" (text name) (
      field "version" (text "1")
        (field "source" (text source) (field "checksum" (text checksum) no_fields))))

-- One package of the workspace, one in the cache, one to be fetched, and one from elsewhere.
abbrev document : Json
document = object (
    field "package"
      (array (
        values_of (
          object (field "name" (text "dnfast") (field "version" (text "1") no_fields))
          ∷ locked "a" registry "four"
          ∷ locked "b" registry "five"
          ∷ locked "c" "git+https://h" "none"
          ∷ [])))
      no_fields)

abbrev loads : Bytes → Result Json
loads lock = ok document

abbrev cached : String → List FilePath
cached file = if str_eq file "a-1.crate" then ("cache" ∷ "a-1.crate" ∷ []) ∷ [] else []

abbrev urlopen : String → Unit {0} → Result Bytes × Unit {0}
urlopen url world =
    (if str_eq url "https://static.crates.io/crates/b/b-1.crate" then ok (5 ∷ []) else ok [], world)

abbrev output : FilePath
output = "out" ∷ []

abbrev lock_path : FilePath
lock_path = "Cargo.lock" ∷ []

abbrev pack : List (String × Bytes) → Bytes
pack [] = []
pack ((name, content) ∷ rest) = content ++ pack rest

abbrev dumps : Json → Bytes
dumps report = 0 ∷ []

abbrev start : Host (Unit {0})
start = record {
  files = λ path.
      if path_eq path lock_path
      then some (9 ∷ [])
      else if path_eq path ("cache" ∷ "a-1.crate" ∷ [])
      then some (4 ∷ [])
      else none;
  world = tt;
}

abbrev exported : Result (Unit {0}) × Host (Unit {0})
exported = export_crates digest loads cached true urlopen output pack dumps lock_path start

export_crates-AreRounds_example :
    (lock : Bytes) × (read : Json) × (found : Json) × (packages : List Json) × (outcomes : List
      Outcome)
    × (start.files lock_path ≡ some lock)
    × (loads lock ≡ ok read)
    × (index read "package" ≡ ok found)
    × (elements found ≡ ok packages)
    × AreRounds (IsExported digest) packages outcomes
    × (exported.1.files (output ++ ("dnfast-cargo-sources.json" ∷ []))
        ≡ some (dumps (report_json digest lock outcomes (pack (archive_of lock outcomes)))))
unfolding export_crates path_eq
export_crates-AreRounds_example =
    export_crates-AreRounds digest loads cached true urlopen output pack dumps lock_path start
      exported.1 refl

-- The crate of the cache and the fetched one are packed in this order, with the lock file.
packs : exported.1.files ("out" ∷ "dnfast-cargo-sources.tar" ∷ []) ≡ some (4 ∷ 5 ∷ 9 ∷ [])
unfolding export_crates path_eq
packs = refl

escapes : is_crate_file "../x-1.crate" ≡ false
unfolding is_crate_file
escapes = refl
