-- ===== src/SourceRpms/Spared.antt =====
-- Which files a round of scripts/collect-dnfast-library-sources.py leaves as they are.
use tiny_agent.Base.{
  path_eq, bytes_eq, take, ◌≡◌, refl, String, Bool, true, false, Option, none, some, List, [], ◌∷◌,
  ◌++◌, is_some, All, Bytes, Exception, Result, assertion,
}
use tiny_agent.Json.{Json}
use tiny_agent.Host.{◌>>=◌, pure, lift, read, exists, write, replace, call}
use tiny_agent.Host.Spares.{
  Spares, bind-Spares, then-Spares, read-Spares, lift-Spares, lift-then-Spares, require-Spares,
  call-Spares, write-Spares, replace-Spares, publish-Spares,
}
use tiny_agent.Upstream.{Body}
use tiny_agent.SourceRpms.{
  is_source_rpm, name_parts, rpm_file, part_file, receive, Known, known_row, check_row, Row,
  report_json,
}
use tiny_agent.SourceRpms.Run
use tiny_agent.SourceRpms.Names.{part_file-rpm_file}

-- A round leaves the files of other packages as they are.
module _ (digest : Bytes → String) (message : Exception → String) {W : Type 0}
    (urlopen : String → W → Result Body × W) (loads : Bytes → Result Json) (dumps : Json → Bytes)
    (other : String) (valid : is_source_rpm other ≡ true) where
  receive_into-Spares :
      (name : String) (body : Body)
      → Spares
          (rpm_file other)
          (Run.receive_into digest message urlopen loads dumps (part_file name) body)
  receive_into-Spares name body =
      then-Spares (rpm_file other) (write (part_file name) (receive body []).0)
        (lift (receive body []).1)
        (write-Spares (rpm_file other) (part_file name) (receive body []).0
          (part_file-rpm_file name other valid))
        (λ host. refl)

  -- One whose name is another.
  module _ (name : String) (unlike : path_eq (rpm_file name) (rpm_file other) ≡ false) where
    settle-Spares :
        (url : String) (previous : Option Json) (content : Bytes)
        → Spares (rpm_file other) (
            Run.settle digest message urlopen loads dumps url
              (part_file name)
              (rpm_file name)
              previous
              content)
    settle-Spares url previous content =
        require-Spares (rpm_file other) (bytes_eq (take 4 content) Run.magic)
          (assertion "Response is not an RPM") _
          (lift-then-Spares (rpm_file other)
            (check_row previous url (digest content) "Downloaded source changed") _
            (then-Spares (rpm_file other) (replace (part_file name) (rpm_file name))
              (pure (digest content))
              (replace-Spares (rpm_file other) (part_file name) (rpm_file name)
                (part_file-rpm_file name other valid) unlike)
              (λ host. refl)))

    download-Spares :
        (url : String) (previous : Option Json)
        → Spares (rpm_file other) (
            Run.download digest message urlopen loads dumps name url
              (part_file name)
              (rpm_file name)
              previous)
    download-Spares url previous =
        then-Spares (rpm_file other)
          (call (urlopen url)
            >>= Run.receive_into digest message urlopen loads dumps (part_file name))
          (read (part_file name)
            >>= Run.settle digest message urlopen loads dumps url (part_file name) (rpm_file name)
                previous)
          (bind-Spares (rpm_file other) (call (urlopen url))
            (Run.receive_into digest message urlopen loads dumps (part_file name))
            (call-Spares (rpm_file other) (urlopen url)) (receive_into-Spares name))
          (read-Spares (rpm_file other) (part_file name) _ (settle-Spares url previous))

    reuse-Spares :
        (url : String) (previous : Option Json)
        → Spares
            (rpm_file other)
            (Run.reuse digest message urlopen loads dumps url (rpm_file name) previous)
    reuse-Spares url previous = read-Spares (rpm_file other) (rpm_file name) _ λ content.
        lift-then-Spares (rpm_file other)
          (check_row previous url (digest content) "Cached source mismatch") (pure (digest content))
          λ host. refl

    choose-Spares :
        (url : String) (previous : Option Json) (found : Bool)
        → Spares
            (rpm_file other)
            (Run.choose digest message urlopen loads dumps name url previous found)
    choose-Spares url (some row) true = reuse-Spares url (some row)
    choose-Spares url (some row) false = download-Spares url (some row)
    choose-Spares url none true = download-Spares url none
    choose-Spares url none false = download-Spares url none

    obtain-Spares :
        (url : String) (previous : Option Json)
        → Spares (rpm_file other) (Run.obtain digest message urlopen loads dumps name url previous)
    obtain-Spares url previous =
        bind-Spares (rpm_file other)
          (exists (rpm_file name)
            >>= Run.choose digest message urlopen loads dumps name url previous)
          (Run.describe digest message urlopen loads dumps name url)
          (λ host. choose-Spares url previous (is_some (host.files (rpm_file name))) host)
          (λ sha. read-Spares (rpm_file other) (rpm_file name) _ λ stored host. refl)

    collect_rpm-Spares :
        (known : Known)
        → Spares (rpm_file other) (Run.collect_rpm digest message urlopen loads dumps known name)
    unfolding Run.collect_rpm
    collect_rpm-Spares known =
        require-Spares (rpm_file other) (is_source_rpm name) (assertion "Invalid source RPM name") _
          (lift-Spares (rpm_file other) (name_parts name) _
            λ (project, version, release) host. obtain-Spares _ (known_row known name) host)

  pub save-Spares :
      (wanted : List String) (rows : List Row)
      → Spares (rpm_file other) (Run.save digest message urlopen loads dumps wanted rows)
  unfolding Run.save path_eq
  save-Spares wanted rows =
      publish-Spares (rpm_file other) Run.pending_path Run.receipt_path
        (dumps (report_json wanted rows)) refl refl

  -- The rounds for other names.
  pub collect_rpms-Spares :
      (wanted : List String) (known : Known) (rows : List Row) (names : List String)
      → All (λ name. path_eq (rpm_file name) (rpm_file other) ≡ false) names
      → Spares
          (rpm_file other)
          (Run.collect_rpms digest message urlopen loads dumps wanted known rows names)
  unfolding Run.collect_rpms
  collect_rpms-Spares wanted known rows [] h = λ host. refl
  collect_rpms-Spares wanted known rows (name ∷ names) (e, h) =
      bind-Spares (rpm_file other) (Run.collect_rpm digest message urlopen loads dumps known name) _
        (collect_rpm-Spares name e known)
        λ row.
          then-Spares (rpm_file other)
            (Run.save digest message urlopen loads dumps wanted (rows ++ (row ∷ [])))
            (Run.collect_rpms digest message urlopen loads dumps wanted known (rows ++ (row ∷ []))
              names)
            (save-Spares wanted (rows ++ (row ∷ [])))
            (collect_rpms-Spares wanted known (rows ++ (row ∷ [])) names h)
