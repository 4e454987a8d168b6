-- ===== src/Tests/Rpms.antt =====
-- A staging of scripts/stage-dnfast-source-notices.py with one source package.
use tiny_agent.Base.{
  path_eq, ◌≡◌, refl, String, true, none, some, List, [], ◌∷◌, map, if◌then◌else◌, ◌==◌, Bytes,
  Result, ok, err, value_error,
}
use tiny_agent.Json.{Json, text, array, values_of, object, no_fields, field, elements}
use tiny_agent.Host.{Host}
use tiny_agent.Host.Rules.{AreRounds}
use tiny_agent.Sources.Notices.{Entry}
use tiny_agent.Rpms.{Notice, notice_json}
use tiny_agent.Rpms.Run.{
  records_path, notices_path, rpm_path, license_path, concat_notices, stage_source_notices,
}
use tiny_agent.Rpms.Staged.{AreNotices, stage_source_notices-AreRounds}

abbrev digest : Bytes → String
digest [] = "none"
digest (x ∷ xs) = if x == 2 then "rpm" else "other"

abbrev extract : Bytes → String → Result Bytes
extract rpm name = ok (3 ∷ [])

abbrev untar : Bytes → Result (List Entry)
untar packed = ok (
    record { name = "zlib-ng-2.3.3/LICENSE.md"; is_file = true; size = 1; content = ok (4 ∷ []) }
    ∷ [])

abbrev document : Json
document = array (
    values_of (
      object (
        field "source_rpm" (text "zlib-ng-2.3.3-3.fc44.src.rpm")
          (field "sha256" (text "rpm") no_fields))
      ∷ []))

abbrev loads : Bytes → Result Json
loads content = ok document

abbrev dumps : Json → Bytes
dumps notices = 0 ∷ []

abbrev start : Host (Unit {0})
start = record {
  files = λ path.
      if path_eq path records_path
      then some (1 ∷ [])
      else if path_eq path (rpm_path "zlib-ng-2.3.3-3.fc44.src.rpm")
      then some (2 ∷ [])
      else none;
  world = tt;
}

abbrev staged : Result (Unit {0}) × Host (Unit {0})
staged = stage_source_notices digest extract untar loads dumps start

stage_source_notices-AreRounds_example :
    (content : Bytes) × (found : Json) × (records : List Json) × (rows : List (List Notice))
    × (start.files records_path ≡ some content)
    × (loads content ≡ ok found)
    × (elements found ≡ ok records)
    × (staged.1.files notices_path
        ≡ some (dumps (array (values_of (map notice_json (concat_notices rows))))))
    × AreRounds (AreNotices digest extract untar) records rows
unfolding stage_source_notices path_eq
stage_source_notices-AreRounds_example =
    stage_source_notices-AreRounds digest extract untar loads dumps start staged.1 refl

stores :
    staged.1.files (license_path "dnfast-source/zlib-ng-2.3.3-3.fc44.src.rpm/LICENSE.md")
    ≡ some (4 ∷ [])
unfolding stage_source_notices path_eq
stores = refl

-- A source package that was changed is refused.
refuses :
    (stage_source_notices (λ content. "other") extract untar loads dumps start).0
    ≡ err (value_error "Source RPM digest mismatch: zlib-ng-2.3.3-3.fc44.src.rpm")
unfolding stage_source_notices path_eq
refuses = refl
