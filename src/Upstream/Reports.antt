-- ===== src/Upstream/Reports.antt =====
-- The run of gpgv and the texts that scripts/collect_upstream.py writes.
use tiny_agent.Base.{
  String, ◌<>◌, Bool, true, ◌&&◌, not, Option, none, some, List, [], ◌∷◌, ◌++◌, map, str_eq,
  if◌then◌else◌, decimal, Bytes, Result, ok, err, runtime_error, ◌>>=◌,
}
use tiny_agent.Json.{Json, Fields, text, boolean, natural, object, field, no_fields, index}
use tiny_agent.Host.{ExitCode, code_text}
use tiny_agent.Upstream.{Files, Artifact}

-- How a run of gpgv ended, and what it printed.
pub record Ended : Type 0 where
  pub code : ExitCode
  pub stdout : String
  pub stderr : String

-- `shutil.which`, which paths are files, a run in the directory, `subprocess.list2cmdline`, the name of the directory, and the
-- writer of texts.
pub record Gpgv : Type 0 where
  pub which : Option String
  pub is_file : String → Bool
  pub run : List String → Files → Result Ended
  pub list2cmdline : List String → String
  pub cwd : String
  pub encode : String → Bytes

abbrev pub found_list : Option String → List String
found_list none = []
found_list (some found) = found ∷ []

abbrev pub gpg_candidates : Option String → List String
gpg_candidates found =
    found_list found
    ++ ("C:/Program Files/Git/usr/bin/gpgv.exe" ∷ "C:/Program Files (x86)/GnuPG/bin/gpgv.exe" ∷ [])

abbrev pub command_of : String → String → List String
command_of checksum_name candidate =
    candidate ∷ "--homedir" ∷ "./public-gpg-home" ∷ "--keyring" ∷ "./fedora.gpg" ∷ "--status-fd"
    ∷ "1" ∷ checksum_name ∷ []

abbrev pub first_command : (String → Bool) → String → List String → Result (List String)
first_command is_file checksum_name [] = err (
    runtime_error
      "No native gpgv found. Probe WSL through wsl_safe.py before adding a verified fallback.")
first_command is_file checksum_name (candidate ∷ candidates) =
    if not (str_eq candidate "") && is_file candidate
    then ok (command_of checksum_name candidate)
    else first_command is_file checksum_name candidates

abbrev pub gpg_command : Gpgv → String → Result (List String)
gpg_command gpgv checksum_name =
    first_command gpgv.is_file checksum_name (gpg_candidates gpgv.which)

abbrev pub log_name : String
log_name = "fedora-signature-verification.log"

abbrev pub log_text : Gpgv → List String → Ended → String
log_text gpgv command ended =
    "cwd="
    <> (gpgv.cwd
        <> ("\n$ "
            <> (gpgv.list2cmdline command
                <> ("\nexit="
                    <> (code_text ended.code <> ("\n" <> (ended.stdout <> ended.stderr)))))))

abbrev pub report_name : String
report_name = "upstream-verification.md"

abbrev pub manifest_name : String
manifest_name = "upstream-manifest.json"

abbrev pub collecting_report : String
collecting_report =
    "# TinyAgent upstream artifact verification\n\nStatus: collecting. No current verification result yet.\n"

abbrev pub failed_report : String → String
failed_report error =
    "# TinyAgent upstream artifact verification\n\nStatus: failed.\n\n" <> (error <> "\n")

abbrev pub artifact_line : Artifact → String
artifact_line item =
    "| " <> (item.file <> (" | " <> (decimal item.bytes <> (" | " <> (item.sha256 <> " |")))))

-- `"\n".join(lines)`
abbrev pub join_lines : List String → String
join_lines [] = ""
join_lines (line ∷ []) = line
join_lines (line ∷ (next ∷ lines)) = line <> ("\n" <> join_lines (next ∷ lines))

abbrev pub verified_report : String → List Artifact → String
verified_report fingerprint artifacts = join_lines (
    ("# TinyAgent upstream artifact verification"
      ∷ ""
      ∷ "Status: verified. Source collection only; no extraction, installation or device changes."
      ∷ ""
      ∷ ("Fedora 44 CHECKSUM signature: valid, pinned primary key " <> (fingerprint <> "."))
      ∷ "OpenCode archive: matches public GitHub release API SHA256 and size; attestation/signature not checked."
      ∷ ""
      ∷ "| File | Bytes | SHA256 |"
      ∷ "|---|---:|---|"
      ∷ [])
    ++ (map artifact_line artifacts
        ++ ("" ∷ "Reproduce: `python scripts/collect_upstream.py`"
            ∷ "Parser guard check: `python scripts/collect_upstream.py --self-check`"
            ∷ "Details: `upstream-manifest.json`, `fedora-signature-verification.log`." ∷ "" ∷ [])))

-- `command[0]`
abbrev pub verifier_of : List String → String
verifier_of [] = ""
verifier_of (verifier ∷ args) = verifier

abbrev pub signature_json : String → List String → Json
signature_json fingerprint command = object (
    field "verified" (boolean true) (
      field "pinned_primary_fingerprint" (text fingerprint) (
        field "log" (text log_name) (
          field "verifier" (text (verifier_of command))
            (field "exit_code" (natural 0) no_fields)))))

-- What the manifest says of the release, whose fields have been read before.
unfoldable pub release_json : Json → Json → String → Result Json
unfolding index
release_json release asset hex = do
  tag ← index release "tag_name"
  id ← index release "id"
  published ← index release "published_at"
  asset_id ← index asset "id"
  ok (
      object (
        field "tag" tag (
          field "id" id (
            field "published_at" published (
              field "asset_id" asset_id (
                field "api_digest" (text ("sha256:" <> hex)) (
                  field "verification_scope"
                    (text
                      "GitHub public release API digest over HTTPS; not a release-signature or attestation verification")
                    no_fields)))))))

-- What `_download_once` gives, with the address that a response was from in the end.
abbrev pub final_fields : Option String → Fields → Fields
final_fields none rest = rest
final_fields (some final_url) rest = field "final_url" (text final_url) rest

abbrev pub artifact_json : Artifact → Json
artifact_json item = object (
    field "file" (text item.file) (
      field "url" (text item.url) (
        final_fields item.final_url (
          field "sha256" (text item.sha256) (
            field "bytes" (natural item.bytes) (field "reused" (boolean item.reused) no_fields))))))

-- An entry of a dictionary that may be there.
abbrev pub some_field : String → Option Json → Fields → Fields
some_field key none rest = rest
some_field key (some v) rest = field key v rest
