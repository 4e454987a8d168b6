-- ===== src/Upstream/Collect.antt =====
-- `main` of scripts/collect_upstream.py
use tiny_agent.Base.{
  String, ◌<>◌, Bool, true, false, Option, none, some, List, [], ◌∷◌, ◌++◌, map, str_eq, Bytes,
  Exception, Result, ok, err, runtime_error, file_not_found,
}
use tiny_agent.Json.{
  Json, Fields, text, natural, array, object, field, no_fields, values_of, index, json_eq,
}
use tiny_agent.Host.{is_success, code_text}
use tiny_agent.Upstream.{Response, put, Run, Artifact}
use tiny_agent.Upstream.Reports.{
  Ended, Gpgv, gpg_command, log_name, log_text, report_name, manifest_name, collecting_report,
  failed_report, verified_report, signature_json, release_json, artifact_json, some_field,
}
use tiny_agent.Upstream.Download.{download}
use tiny_agent.Upstream.Checks.{checksum_for, validate_signature, read_release}

-- The pinned names and values.
pub record Pins : Type 0 where
  pub fedora_base : String
  pub fedora_name : String
  pub checksum_name : String
  pub fedora_sha256 : String
  pub fingerprint : String
  pub github_api : String
  pub opencode_url : String
  pub opencode_name : String

pub data Status : Type 0 where
  verified : Status
  failed : Exception → Status

-- `manifest`, as far as it has been gathered.
pub record Manifest : Type 0 where
  pub artifacts : List Artifact
  pub fedora_signature : Option Json
  pub opencode_release : Option Json

-- What the collection works on: the downloads, and the manifest.
abbrev pub State : Type 0 → Type 0
State W = Run W × Manifest

abbrev pub Exec : Type 0 → Type 0 → Type 0
Exec W A = State W → Result A × State W

abbrev pub on_result : {W A B : Type 0} → Result A → State W → (A → Exec W B) → Result B × State W
on_result (err x) state next = (err x, state)
on_result (ok a) state next = next a state

infixl 10 ◌>>=◌ ◌>>◌
abbrev pub ◌>>=◌ : {W A B : Type 0} → Exec W A → (A → Exec W B) → Exec W B
◌>>=◌ run next state = let (result, after) = run state in on_result result after next

abbrev pub ◌>>◌ : {W B : Type 0} → Exec W (Unit {0}) → Exec W B → Exec W B
run >> next = run >>= λ _. next

abbrev pub pure : {W A : Type 0} → A → Exec W A
pure a state = (ok a, state)

abbrev pub lift : {W A : Type 0} → Result A → Exec W A
lift result state = (result, state)

abbrev pub guard : {W : Type 0} → Bool → Exception → Exec W (Unit {0})
guard test x state = (elim test [ true ↦ ok tt | false ↦ err x ], state)

-- The entries of the end: the time, or the exception.
abbrev pub end_fields : (Exception → String) → String → Status → Fields
end_fields message completed verified = field "completed_utc" (text completed) no_fields
end_fields message completed (failed x) = field "error" (text (message x)) no_fields

abbrev pub status_text : Status → String
status_text verified = "verified"
status_text (failed x) = "failed"

-- `manifest`, with the two times.
abbrev pub manifest_json : (Exception → String) → String → String → Manifest → Status → Json
manifest_json message started completed manifest status = object (
    field "purpose" (text "Verified upstream source artifacts; not a TinyAgent release") (
      field "started_utc" (text started) (
        field "artifacts" (array (values_of (map artifact_json manifest.artifacts))) (
          field "status" (text (status_text status)) (
            some_field "fedora_signature" manifest.fedora_signature (
              some_field "opencode_release" manifest.opencode_release
                (end_fields message completed status)))))))

abbrev pub write_file : {W : Type 0} → String → Bytes → Run W → Run W
write_file name content run = record run { files = put name (some content) run.files }

abbrev pub no_artifacts : Manifest
no_artifacts = record { artifacts = []; fedora_signature = none; opencode_release = none }

module _ (digest : Bytes → String) {W : Type 0} (urlopen : String → W → Result Response × W)
    (gpgv : Gpgv)
    -- `read_text` and `json.loads`
    (decode : Bytes → Result String) (loads : String → Result Json) (pins : Pins) where
  abbrev pub transfer : String → String → Option String → Bool → Exec W Artifact
  transfer url name expected refresh (run, manifest) =
      let (result, after) = download digest urlopen url name expected refresh run in
      (result, (after, manifest))

  -- `manifest['artifacts'].append(…)`
  abbrev pub append : Artifact → Exec W (Unit {0})
  append artifact (run, manifest) =
      (ok tt, (run, record manifest { artifacts = manifest.artifacts ++ (artifact ∷ []) }))

  abbrev pub note_signature : List String → Exec W (Unit {0})
  note_signature command (run, manifest) = (
    ok tt,
    (run, record manifest { fedora_signature = some (signature_json pins.fingerprint command) }),
  )

  abbrev pub note_release : Json → Exec W (Unit {0})
  note_release described (run, manifest) =
      (ok tt, (run, record manifest { opencode_release = some described }))

  abbrev pub text_of : Option Bytes → Result String
  text_of none = err (file_not_found "")
  text_of (some content) = decode content

  abbrev pub read_text : String → Exec W String
  read_text name (run, manifest) = (text_of (run.files name), (run, manifest))

  abbrev pub run_gpgv : List String → Exec W Ended
  run_gpgv command (run, manifest) = (gpgv.run command run.files, (run, manifest))

  abbrev pub write_log : List String → Ended → Exec W (Unit {0})
  write_log command ended (run, manifest) =
      (ok tt, (write_file log_name (gpgv.encode (log_text gpgv command ended)) run, manifest))

  unfoldable pub fetch_keys : Exec W (Unit {0})
  unfolding download
  fetch_keys = do
    checksums ← transfer (pins.fedora_base <> pins.checksum_name) pins.checksum_name none false
    append checksums
    gpg ← transfer "https://fedoraproject.org/fedora.gpg" "fedora.gpg" none false
    append gpg
    pgp ← transfer "https://fedoraproject.org/fedora.pgp" "fedora.pgp" none false
    append pgp

  -- The image, with the signed digest.
  unfoldable pub fetch_fedora : Exec W Artifact
  unfolding download validate_signature checksum_for
  fetch_fedora = do
    command ← lift (gpg_command gpgv pins.checksum_name)
    result ← run_gpgv command
    write_log command result
    guard (is_success result.code) (
        runtime_error (
          "Fedora CHECKSUM signature failed, gpgv exit="
          <> (code_text result.code <> "; see verification log")))
    lift (validate_signature pins.fingerprint result.stdout)
    content ← read_text pins.checksum_name
    expected ← lift (checksum_for content pins.fedora_name)
    guard (str_eq expected pins.fedora_sha256)
        (runtime_error "Signed CHECKSUM differs from pinned official Fedora website digest")
    note_signature command
    image ← transfer (pins.fedora_base <> pins.fedora_name) pins.fedora_name (some expected) false
    append image
    pure image

  -- The archive, with the digest and the size that the release's description gives.
  unfoldable pub fetch_opencode : Exec W (Artifact × String)
  unfolding download read_release release_json index json_eq
  fetch_opencode = do
    metadata ← transfer pins.github_api "opencode-v1.18.29-release-api.json" none true
    append metadata
    content ← read_text metadata.file
    release ← lift (loads content)
    found ← lift (read_release pins.opencode_name pins.opencode_url release)
    described ← lift (release_json release found.0 found.1)
    note_release described
    archive ← transfer pins.opencode_url pins.opencode_name (some found.1) false
    size ← lift (index found.0 "size")
    guard (json_eq (natural archive.bytes) size) (runtime_error "OpenCode asset size mismatch")
    append archive
    pure (archive, found.1)

  unfoldable pub collect : Exec W (Artifact × (Artifact × String))
  unfolding fetch_keys fetch_fedora fetch_opencode
  collect = do fetch_keys; image ← fetch_fedora; opencode ← fetch_opencode; pure (image, opencode)

  abbrev pub status_of : Result (Artifact × (Artifact × String)) → Status
  status_of (ok found) = verified
  status_of (err x) = failed x

  -- The report of the end.
  abbrev pub close :
      (Exception → String)
      → Result (Artifact × (Artifact × String))
      → List Artifact
      → Run W
      → Result (Unit {0}) × Run W
  close message (ok found) artifacts run =
      (ok tt, write_file report_name (gpgv.encode (verified_report pins.fingerprint artifacts)) run)
  close message (err x) artifacts run =
      (err x, write_file report_name (gpgv.encode (failed_report (message x))) run)

  -- The manifest is written whether the collection raises or not. The times are those of the clock.
  unfoldable pub main :
      (Exception → String) → (Json → Bytes) → String → String → Run W → Result (Unit {0}) × Run W
  unfolding collect
  main message dumps started completed run =
      let begun = write_file report_name (gpgv.encode collecting_report) run in
      let (result, (after, manifest)) = collect (begun, no_artifacts) in
      let described = manifest_json message started completed manifest (status_of result) in
      close message result manifest.artifacts (write_file manifest_name (dumps described) after)
