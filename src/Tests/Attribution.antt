-- ===== src/Tests/Attribution.antt =====
-- A collection of scripts/collect-dnfast-rpm-notices.py for two packages of one source.
use tiny_agent.Base.{
  ◌≡◌, refl, String, true, false, none, some, List, [], ◌∷◌, map, if◌then◌else◌, str_eq, Option,
  Bytes, Result, ok, err, value_error, path_eq, contains,
}
use tiny_agent.Host.{Host}
use tiny_agent.Staging.{TapeMember}
use tiny_agent.Attribution.Write.{report_path, archive_path, stage_notices}
use tiny_agent.Attribution.Staged.{AreStaged, stage_notices-AreStaged}
use tiny_agent.Json.{Json, text, object, no_fields, field, null}
use tiny_agent.Host.Rules.{AreRounds}
use tiny_agent.Packaged.Notices.{uncovered}
use tiny_agent.Attribution.{Notice, Row, row_json}
use tiny_agent.Attribution.Collect.{Image, Archive, all_complete, report_json, collect_attribution}
use tiny_agent.Attribution.Complete.{uncovered-row_json}
use tiny_agent.Attribution.Archived.{IsArchived, all_notices, collect_attribution-AreRounds}

abbrev digest : Bytes → String
digest [] = "none"
digest (x ∷ xs) = "some"

abbrev files : String → Option Bytes
files path = if str_eq path "/usr/share/licenses/z/COPYING" then some (5 ∷ 6 ∷ []) else none

-- The library has no licence files of its own.
abbrev image : Image
image = record {
  installed = ok "z-1\tz.src.rpm\nz-libs-1\tz.src.rpm\n";
  query = λ name.
      ok (if str_eq name "z-1" then "z-1\nz.src.rpm\nMIT\n" else "z-libs-1\nz.src.rpm\nMIT\n");
  license_files = λ name. ok (if str_eq name "z-1" then "/usr/share/licenses/z/COPYING\n" else "");
  files = files;
}

abbrev manifest : Json
manifest = object (
    field "library_packages"
      (object (field "libz.so" (text "z-libs-1") (field "libz.so.1" (text "z-1") no_fields)))
      (field "candidate_commit" null no_fields))

abbrev notice_of : String → String → Notice
notice_of owner member = record {
  path = "/usr/share/licenses/z/COPYING";
  owner_package = owner;
  member = member;
  sha256 = "some";
}

abbrev row_of : String → Notice → Row
row_of name notice = record {
  name = name;
  source_rpm = "z.src.rpm";
  license_expression = "MIT";
  notices = notice ∷ [];
  missing = [];
}

abbrev rows : List Row
rows =
    row_of "z-1" (notice_of "z-1" "z-1/COPYING")
    ∷ row_of "z-libs-1" (notice_of "z-1" "z-libs-1/z-1/COPYING")
    ∷ []

abbrev archive : Archive
archive = ("z-1/COPYING", 5 ∷ 6 ∷ []) ∷ ("z-libs-1/z-1/COPYING", 5 ∷ 6 ∷ []) ∷ []

abbrev report : Json
report = report_json digest image null rows (7 ∷ [])

collects :
    collect_attribution digest image (λ members. 7 ∷ []) manifest ≡ ok (rows, archive, report)
unfolding collect_attribution
collects = refl

collect_attribution-AreRounds_example :
    AreRounds (IsArchived digest image) (all_notices rows) archive
collect_attribution-AreRounds_example =
    collect_attribution-AreRounds digest image (λ members. 7 ∷ []) manifest rows archive report
      collects

uncovered-row_json_example : uncovered [] (map row_json rows) ≡ ok []
unfolding all_complete
uncovered-row_json_example = uncovered-row_json [] rows refl

-- The staging of what was collected.
abbrev member_of : String × Bytes → TapeMember
member_of (name, content) = record {
  name = name;
  is_file = true;
  is_dir = false;
  content = ok content;
}

abbrev host : Host (Unit {0})
host = record {
  files = λ path.
      if path_eq path report_path
      then some (1 ∷ [])
      else if path_eq path archive_path
      then some (7 ∷ [])
      else none;
  world = tt;
}

abbrev staged : Result (Unit {0}) × Host (Unit {0})
staged = stage_notices digest (λ content. ok report) (λ packed. ok (map member_of archive)) host

stage_notices-AreStaged_example : AreStaged digest (λ content. ok report) host staged.1
unfolding stage_notices path_eq contains row_json all_complete
stage_notices-AreStaged_example =
    stage_notices-AreStaged digest (λ content. ok report) (λ packed. ok (map member_of archive))
      host staged.1 refl

-- A notice of the archive that the report does not list.
refuses :
    (stage_notices digest
      (λ content. ok report)
      (λ packed. ok (member_of ("z-2/COPYING", 5 ∷ []) ∷ []))
      host).0
    ≡ err (value_error "Invalid notice member: z-2/COPYING")
unfolding stage_notices path_eq contains row_json all_complete
refuses = refl
