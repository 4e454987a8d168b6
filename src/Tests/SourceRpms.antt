-- ===== src/Tests/SourceRpms.antt =====
-- A collection of scripts/collect-dnfast-library-sources.py with two source packages.
use tiny_agent.Base.{
  path_eq, bytes_eq, ◌≡◌, refl, String, true, false, none, some, List, [], ◌∷◌, if◌then◌else◌,
  Bytes, Exception, Result, ok, err, url_error, system_exit,
}
use tiny_agent.Json.{Json, text, array, values_of, object, no_fields, field, index}
use tiny_agent.Host.{Host}
use tiny_agent.Host.Rules.{AreRounds}
use tiny_agent.Upstream.{Body, end, broken, piece}
use tiny_agent.SourceRpms.{
  Known, Row, failed, has_digest, name_parts, is_source_rpm, wanted_names, report_json, rpm_file,
}
use tiny_agent.SourceRpms.Run.{
  notices_path, additional_path, receipt_path, magic, collect, collect_rpm,
}
use tiny_agent.SourceRpms.Rounds.{IsRecorded}
use tiny_agent.SourceRpms.Collected.{AreKnown, collect-AreRounds}

splits_name : name_parts "zlib-ng-2.3.3-3.fc44.src.rpm" ≡ ok ("zlib-ng", "2.3.3", "3.fc44")
unfolding name_parts
splits_name = refl

unsafe_name : is_source_rpm "../x.src.rpm" ≡ false
unfolding is_source_rpm
unsafe_name = refl

abbrev digest : Bytes → String
digest content = if bytes_eq content magic then "rpm" else "other"

abbrev package_ : String → Json
package_ name = object (field "source_rpm" (text name) no_fields)

abbrev known_row : Json
known_row = object (
    field "source_rpm" (text "b-2-3.src.rpm") (
      field "url" (text "https://kojipkgs.fedoraproject.org/packages/b/2/3/src/b-2-3.src.rpm")
        (field "sha256" (text "rpm") no_fields)))

-- The notices name one package twice; the additional rows know the other, whose file is there.
abbrev loads : Bytes → Result Json
loads [] = ok (array (values_of (known_row ∷ [])))
loads (x ∷ xs) = ok (
    object (
      field "packages"
        (array (
          values_of
            (package_ "b-2-3.src.rpm" ∷ package_ "a-1-1.src.rpm" ∷ package_ "b-2-3.src.rpm" ∷ [])))
        no_fields))

abbrev message : Exception → String
message x = "error"

abbrev urlopen : String → Unit {0} → Result Body × Unit {0}
urlopen url world = (ok (piece magic end), world)

abbrev broken_off : String → Unit {0} → Result Body × Unit {0}
broken_off url world = (ok (piece (1 ∷ []) (broken (url_error ""))), world)

abbrev dumps : Json → Bytes
dumps report = 0 ∷ []

abbrev start : Host (Unit {0})
start = record {
  files = λ path.
      if path_eq path notices_path
      then some (1 ∷ [])
      else if path_eq path additional_path
      then some []
      else if path_eq path (rpm_file "b-2-3.src.rpm")
      then some magic
      else none;
  world = tt;
}

-- A package that cannot be fetched gives a row, and the part is kept.
broken_row :
    (collect_rpm digest message broken_off loads dumps [] "a-1-1.src.rpm" start).0
    ≡ ok (
        failed "a-1-1.src.rpm" "https://kojipkgs.fedoraproject.org/packages/a/1/1/src/a-1-1.src.rpm"
          "error")
unfolding collect_rpm path_eq
broken_row = refl

broken_end :
    (collect digest message broken_off loads dumps start).0
    ≡ err (system_exit "Source RPM collection incomplete; see receipt")
unfolding collect path_eq
broken_end = refl

abbrev after : Host (Unit {0})
unfolding collect path_eq
after = (collect digest message urlopen loads dumps start).1

collect-AreRounds_example :
    (content : Bytes) × (document : Json) × (packages : Json) × (wanted : List String)
    × (known : Known) × (records : List Row) × (start.files notices_path ≡ some content)
    × (loads content ≡ ok document)
    × (index document "packages" ≡ ok packages)
    × (wanted_names packages ≡ ok wanted)
    × AreKnown digest message urlopen loads dumps start.files known
    × AreRounds
        (λ name row.
          (has_digest row ≡ true)
          × IsRecorded digest message urlopen loads dumps known after.files name row)
        wanted
        records
    × (after.files receipt_path ≡ some (dumps (report_json wanted records)))
unfolding collect path_eq bytes_eq
collect-AreRounds_example = collect-AreRounds digest message urlopen loads dumps start after refl
