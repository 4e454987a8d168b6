-- ===== src/Packaged/Notices.antt =====
-- The licences and notices in scripts/check-packaged-runtime.py
use tiny_agent.Base.{
  String, Bool, true, false, not, List, [], ◌∷◌, ◌++◌, Result, ok, assertion, type_error, guard,
  ◌>>=◌, ◌>>◌, traverse, check_all,
}
use tiny_agent.Json.{Json, index, elements, is_true, contains_json, is_hashable, all_hashable}
use tiny_agent.Packaged.{Build, read_json, check_indexed, check_named}

abbrev pub licenses : String
licenses = "assets/licenses/"

-- The values of a set comprehension, and whether a value is not among them.
abbrev set_from : List Json → Result (List Json)
set_from vs = guard (all_hashable vs) (type_error "unhashable type") >> ok vs

abbrev is_missing_from : Json → List Json → Result Bool
is_missing_from v vs =
    guard (is_hashable v) (type_error "unhashable type") >> ok (not (contains_json v vs))

abbrev pub lacks_notice : Json → Bool → Result Bool
lacks_notice item true = ok true
lacks_notice item false = do notices ← index item "notices"; ok (not (is_true notices))

abbrev pub lacks_source : List Json → Json → Bool → Result Bool
lacks_source supplemental item false = ok false
lacks_source supplemental item true = do
  source ← index item "source_rpm"
  is_missing_from source supplemental

-- The package has neither its own notices in full nor those of its source.
unfoldable pub is_uncovered : List Json → Json → Result Bool
unfolding index is_true contains_json all_hashable
is_uncovered supplemental item = do
  missing ← index item "missing"
  lacking ← lacks_notice item (is_true missing)
  lacks_source supplemental item lacking

abbrev pub add_uncovered : Json → Result (List Json) → Bool → Result (List Json)
add_uncovered item rest false = rest
add_uncovered item rest true = do name ← index item "package"; more ← rest; ok (name ∷ more)

unfoldable pub uncovered : List Json → List Json → Result (List Json)
unfolding is_uncovered index
uncovered supplemental [] = ok []
uncovered supplemental (item ∷ items) =
    let rest = uncovered supplemental items in
    is_uncovered supplemental item >>= add_uncovered item rest

abbrev pub all_covered : List Json → Bool
all_covered [] = true
all_covered (v ∷ vs) = false

module _ (build : Build) where
  -- The licence of dnfast and the archive of the notices of its crates.
  unfoldable pub check_archives : Result (Unit {0})
  unfolding read_json check_named check_indexed
  check_archives = do
    dnfast_source ← read_json build "runtime/dnfast-source-export.json"
    check_named build licenses "notice" "notice_sha256" dnfast_source
    cargo_notices ← read_json build "runtime/dnfast-cargo-notices.json"
    check_indexed build "assets/licenses/dnfast-cargo-notices.tar" cargo_notices "archive_sha256"

  unfoldable pub check_rpm_notice : Json → Result (Unit {0})
  unfolding check_named
  check_rpm_notice notice = check_named build "assets/licenses/dnfast-rpm/" "member" "sha256" notice

  unfoldable pub check_file_notice : Json → Result (Unit {0})
  unfolding check_named
  check_file_notice notice = check_named build licenses "file" "sha256" notice

  unfoldable pub check_package : Json → Result (Unit {0})
  unfolding index elements check_all check_rpm_notice
  check_package item = do
    found ← index item "notices"
    notices ← elements found
    check_all check_rpm_notice notices

  -- The notices of the packages and of their sources, and that every package is covered.
  unfoldable pub check_packages : Result (Unit {0})
  unfolding read_json index elements check_all check_package check_file_notice traverse uncovered
      all_hashable
  check_packages = do
    rpm_notices ← read_json build "runtime/dnfast-rpm-notices.json"
    packages ← index rpm_notices "packages"
    items ← elements packages
    check_all check_package items
    source_notices ← read_json build "runtime/dnfast-source-notices.json"
    notices ← elements source_notices
    check_all check_file_notice notices
    rpms ← traverse (λ notice. index notice "source_rpm") notices
    supplemental ← set_from rpms
    left ← uncovered supplemental items
    guard (all_covered left) (assertion "Packages without packaged RPM or source notices")

  -- The notices of the native sources, with the additional licence as the last.
  unfoldable pub notices_of : Json → Result (List Json)
  unfolding index elements
  notices_of source = index source "notices" >>= elements

  abbrev pub concat_json : List (List Json) → List Json
  concat_json [] = []
  concat_json (vs ∷ rest) = vs ++ concat_json rest

  unfoldable pub check_native_notices : Result (Unit {0})
  unfolding read_json index elements traverse notices_of check_all check_file_notice
  check_native_notices = do
    sources ← read_json build "evidence/native-source-collection.json"
    found ← index sources "sources"
    items ← elements found
    notices ← traverse notices_of items
    additional ← index sources "additional_license"
    check_all check_file_notice (concat_json notices ++ (additional ∷ []))
