-- ===== src/Rpms/Run.antt =====
-- The program of scripts/stage-dnfast-source-notices.py
use tiny_agent.Base.{FilePath, parts, ◌++◌, map, String, List, [], ◌∷◌, Bytes, Result}
use tiny_agent.Json.{Json, array, values_of, elements}
use tiny_agent.Host.{Exec, ◌>>=◌, ◌>>◌, pure, lift, read, write, for_each}
use tiny_agent.Sources.Notices.{Entry}
use tiny_agent.Rpms.{Notice, target_of, read_member, notice_json, relative_name, read_archive}

abbrev pub records_path : FilePath
records_path = "runtime" ∷ "dnfast-additional-source-rpms.json" ∷ []

abbrev pub notices_path : FilePath
notices_path = "runtime" ∷ "dnfast-source-notices.json" ∷ []

abbrev pub rpm_path : String → FilePath
rpm_path name = "artifacts" ∷ "native-sources" ∷ "rpms" ∷ name ∷ []

abbrev pub license_path : String → FilePath
license_path relative = "app" ∷ "src" ∷ "main" ∷ "assets" ∷ "licenses" ∷ parts relative

abbrev pub concat_notices : List (List Notice) → List Notice
concat_notices [] = []
concat_notices (notices ∷ rest) = notices ++ concat_notices rest

module _ (digest : Bytes → String) (extract : Bytes → String → Result Bytes)
    (untar : Bytes → Result (List Entry)) {W : Type 0} where
  unfoldable pub stage_member : String → String → List Entry → String → Exec W Notice
  unfolding read_member
  stage_member name source entries member = lift (read_member member entries) >>= λ content.
      write (license_path (relative_name name member)) content
      >> pure (record {
        file = relative_name name member;
        sha256 = digest content;
        source_rpm = name;
        source_archive = source;
        member = member;
      })

  -- One round of the loop over the records.
  unfoldable pub stage_record : Json → Exec W (List Notice)
  unfolding target_of read_archive for_each stage_member
  stage_record record_ = lift (target_of record_) >>= λ found. read (rpm_path found.0) >>= λ rpm.
      lift (read_archive digest extract untar record_ found.0 found.1.source rpm) >>= λ entries.
      for_each (stage_member found.0 found.1.source entries) found.1.members

  unfoldable pub stage_source_notices : (Bytes → Result Json) → (Json → Bytes) → Exec W (Unit {0})
  unfolding elements for_each stage_record
  stage_source_notices loads dumps = read records_path >>= λ content.
      lift (loads content) >>= λ document. lift (elements document) >>= λ records.
      for_each stage_record records >>= λ rows.
      write notices_path (dumps (array (values_of (map notice_json (concat_notices rows)))))
