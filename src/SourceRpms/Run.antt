-- ===== src/SourceRpms/Run.antt =====
-- The program of scripts/collect-dnfast-library-sources.py
use tiny_agent.Base.{
  FilePath, bytes_eq, String, Bool, true, false, Option, some, List, [], ◌∷◌, ◌++◌, take, length,
  Bytes, Exception, Result, ok, err, assertion, name_error, system_exit,
}
use tiny_agent.Json.{Json, array, no_values, index}
use tiny_agent.Host.{
  Exec, ◌>>=◌, ◌>>◌, pure, lift, require, read, exists, write, replace, call, attempt,
}
use tiny_agent.Staging.{publish}
use tiny_agent.Upstream.{Body}
use tiny_agent.SourceRpms

abbrev pub notices_path : FilePath
notices_path = "runtime" ∷ "dnfast-rpm-notices.json" ∷ []

abbrev pub additional_path : FilePath
additional_path = "runtime" ∷ "dnfast-additional-source-rpms.json" ∷ []

abbrev pub receipt_path : FilePath
receipt_path = "runtime" ∷ "dnfast-library-sources.json" ∷ []

abbrev pub pending_path : FilePath
pending_path = "runtime" ∷ "dnfast-library-sources.part" ∷ []

-- The first bytes of an RPM.
abbrev pub magic : Bytes
magic = 237 ∷ 171 ∷ 238 ∷ 219 ∷ []

-- The digest, `str` of an exception, the network, and Python's reader and writer of JSON.
module _ (digest : Bytes → String) (message : Exception → String) {W : Type 0}
    (urlopen : String → W → Result Body × W) (loads : Bytes → Result Json)
    (dumps : Json → Bytes) where
  -- What is written of a response stays in the part when a block fails.
  abbrev pub receive_into : FilePath → Body → Exec W (Unit {0})
  receive_into temporary body =
      write temporary (SourceRpms.receive body []).0 >> lift (SourceRpms.receive body []).1

  -- A part that is an RPM, and what is known of it, takes the place of the file.
  abbrev pub settle : String → FilePath → FilePath → Option Json → Bytes → Exec W String
  settle url temporary target previous content =
      require (bytes_eq (take 4 content) magic) (assertion "Response is not an RPM")
      >> (lift (SourceRpms.check_row previous url (digest content) "Downloaded source changed")
          >> (replace temporary target >> pure (digest content)))

  abbrev pub download : String → String → FilePath → FilePath → Option Json → Exec W String
  download name url temporary target previous =
      call (urlopen url)
      >>= receive_into temporary
      >> (read temporary >>= settle url temporary target previous)

  abbrev pub reuse : String → FilePath → Option Json → Exec W String
  reuse url target previous = read target >>= λ content.
      lift (SourceRpms.check_row previous url (digest content) "Cached source mismatch")
      >> pure (digest content)

  -- `if previous and target.is_file()`
  abbrev pub choose : String → String → Option Json → Bool → Exec W String
  choose name url (some row) true = reuse url (SourceRpms.rpm_file name) (some row)
  choose name url previous _ =
      download name url (SourceRpms.part_file name) (SourceRpms.rpm_file name) previous

  -- The row of what stands under the name.
  abbrev pub describe : String → String → String → Exec W SourceRpms.Row
  describe name url sha = read (SourceRpms.rpm_file name) >>= λ stored.
      pure (SourceRpms.collected name url (length stored) sha)

  -- What stands in the `try` block.
  abbrev pub obtain : String → String → Option Json → Exec W SourceRpms.Row
  obtain name url previous =
      exists (SourceRpms.rpm_file name) >>= choose name url previous >>= describe name url

  abbrev pub or_failed : String → String → Result SourceRpms.Row → SourceRpms.Row
  or_failed name url (ok row) = row
  or_failed name url (err x) = SourceRpms.failed name url (message x)

  abbrev pub collect_from : SourceRpms.Known → String → String → Exec W SourceRpms.Row
  collect_from known name url =
      attempt (obtain name url (SourceRpms.known_row known name)) >>= λ result.
      pure (or_failed name url result)

  -- A round of the loop, up to the report.
  unfoldable pub collect_rpm : SourceRpms.Known → String → Exec W SourceRpms.Row
  unfolding SourceRpms.is_source_rpm SourceRpms.name_parts SourceRpms.url_of SourceRpms.receive
      bytes_eq SourceRpms.check_row SourceRpms.known_row
  collect_rpm known name =
      require (SourceRpms.is_source_rpm name) (assertion "Invalid source RPM name")
      >> (lift (SourceRpms.name_parts name) >>= λ (project, version, release).
          collect_from known name (SourceRpms.url_of project version release name))

  -- The report is replaced behind each round.
  unfoldable pub save : List String → List SourceRpms.Row → Exec W (Unit {0})
  unfolding publish SourceRpms.report_json
  save wanted rows = publish pending_path receipt_path (dumps (SourceRpms.report_json wanted rows))

  -- The rounds, behind those that have given the rows.
  unfoldable pub collect_rpms :
      List String
      → SourceRpms.Known
      → List SourceRpms.Row
      → List String
      → Exec W (List SourceRpms.Row)
  unfolding collect_rpm save
  collect_rpms wanted known rows [] = pure rows
  collect_rpms wanted known rows (name ∷ names) = collect_rpm known name >>= λ row.
      save wanted (rows ++ (row ∷ [])) >> collect_rpms wanted known (rows ++ (row ∷ [])) names

  abbrev pub known_sources : Bool → Exec W Json
  known_sources false = pure (array no_values)
  known_sources true = read receipt_path >>= λ content.
      lift (loads content) >>= λ receipt. lift (index receipt "sources")

  -- Without a round there is no report.
  abbrev pub check_report : List String → List SourceRpms.Row → Result (Unit {0})
  check_report wanted [] = err (name_error "name 'report' is not defined")
  check_report wanted (row ∷ rows) = elim (SourceRpms.is_complete wanted (row ∷ rows)) [
    | true ↦ ok tt
    | false ↦ err (system_exit "Source RPM collection incomplete; see receipt")
  ]

  unfoldable pub collect : Exec W (Unit {0})
  unfolding index SourceRpms.extend SourceRpms.keyed_rows SourceRpms.wanted_names collect_rpms
      SourceRpms.is_complete
  collect = read notices_path >>= λ content. lift (loads content) >>= λ document.
      lift (index document "packages") >>= λ packages.
      exists receipt_path >>= known_sources >>= λ sources. read additional_path >>= λ more.
      lift (loads more) >>= λ additional. lift (SourceRpms.extend sources additional) >>= λ rows.
      lift (SourceRpms.keyed_rows rows) >>= λ known.
      lift (SourceRpms.wanted_names packages) >>= λ wanted.
      collect_rpms wanted known [] wanted >>= λ records. lift (check_report wanted records)
