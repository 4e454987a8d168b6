-- ===== src/Tests/Collect.antt =====
-- The collection of scripts/collect_upstream.py with a network that answers as it should.
use tiny_agent.Base.{
  ℕ, ◌≡◌, refl, str_eq, codes, String, ◌<>◌, false, none, some, List, [], ◌∷◌, if◌then◌else◌, ◌==◌,
  Bytes, Exception, Result, ok, err, url_error, runtime_error,
}
use tiny_agent.Json.{
  Json, natural, text, boolean, array, object, value, no_values, field, no_fields,
}
use tiny_agent.Upstream.{end, piece, Response, Artifact}
use tiny_agent.Upstream.Checks.{validate_signature}
use tiny_agent.Host.{exited}
use tiny_agent.Upstream.Reports.{Gpgv, join_lines}
use tiny_agent.Upstream.Collect.{Pins, State, no_artifacts, fetch_keys, fetch_fedora, collect, main}
use tiny_agent.Upstream.Verified.{IsSigned, IsPublished, collect-IsVerified}

abbrev Network : Type 0
Network = List (Result Response)

abbrev urlopen : String → Network → Result Response × Network
urlopen url [] = (err (url_error "refused"), [])
urlopen url (response ∷ rest) = (response, rest)

abbrev long : String → String
long s =
    let eight = s <> s <> s <> s <> s <> s <> s <> s in
    eight <> eight <> eight <> eight <> eight <> eight <> eight <> eight

abbrev digest : Bytes → String
digest [] = "none"
digest (x ∷ xs) = if x == 7 then long "a" else if x == 8 then long "b" else "other"

abbrev respond : ℕ → Result Response
respond n = ok (record { url = "https://h/f"; size = ok 1; body = piece (n ∷ []) end })

abbrev pins : Pins
pins = record {
  fedora_base = "https://d/";
  fedora_name = "F.tar";
  checksum_name = "CHECKSUM";
  fedora_sha256 = long "a";
  fingerprint = "FP";
  github_api = "https://api.github.com/r";
  opencode_url = "https://github.com/o.tar.gz";
  opencode_name = "o.tar.gz";
}

abbrev decode : Bytes → Result String
decode content = ok ("# signed\nSHA256 (F.tar) = " <> long "a" <> "\n")

abbrev gpgv : Gpgv
gpgv = record {
  which = none;
  is_file = λ path. str_eq path "C:/Program Files (x86)/GnuPG/bin/gpgv.exe";
  run = λ command files. ok (record {
    code = exited 0;
    stdout = "[GNUPG:] NEWSIG\n[GNUPG:] VALIDSIG FP 2026-04-24 0 0 4 0 1 10 01 FP\n";
    stderr = "";
  });
  list2cmdline = join_lines;
  cwd = "artifacts";
  encode = codes;
}

abbrev asset : Json
asset = object (
    field "name" (text "o.tar.gz") (
      field "digest" (text ("sha256:" <> long "b")) (
        field "browser_download_url" (text "https://github.com/o.tar.gz")
          (field "id" (natural 2) (field "size" (natural 1) no_fields)))))

abbrev loads : String → Result Json
loads s = ok (
    object (
      field "tag_name" (text "v1.18.29") (
        field "draft" (boolean false) (
          field "id" (natural 1) (
            field "published_at" (text "t")
              (field "assets" (array (value asset no_values)) no_fields))))))

abbrev start : State Network
start = (
  record {
    files = λ name. none;
    world = respond 1 ∷ respond 2 ∷ respond 3 ∷ respond 7 ∷ respond 4 ∷ respond 8 ∷ [];
    events = [];
  },
  no_artifacts,
)

abbrev image : Artifact
image = record {
  file = "F.tar";
  url = "https://d/F.tar";
  final_url = some "https://h/f";
  sha256 = long "a";
  bytes = 1;
  reused = false;
}

abbrev archive : Artifact
archive = record {
  file = "o.tar.gz";
  url = "https://github.com/o.tar.gz";
  final_url = some "https://h/f";
  sha256 = long "b";
  bytes = 1;
  reused = false;
}

collects : (collect digest urlopen gpgv decode loads pins start).0 ≡ ok (image, (archive, long "b"))
unfolding collect
collects = refl

-- An expired signature next to a valid one is refused.
refuses_expired :
    validate_signature "FP" "[GNUPG:] VALIDSIG FP 1 2 3 4 5 6 7 8 FP\n[GNUPG:] EXPSIG"
    ≡ err (runtime_error "GPG reports an invalid/expired/revoked CHECKSUM signature")
unfolding validate_signature
refuses_expired = refl

collect-IsVerified_example :
    IsSigned digest urlopen gpgv decode loads pins
      (fetch_keys digest urlopen gpgv decode loads pins start).1.0.files
    × (image.sha256 ≡ pins.fedora_sha256)
    × IsPublished digest urlopen gpgv decode loads pins
        (fetch_fedora digest urlopen gpgv decode loads pins
          (fetch_keys digest urlopen gpgv decode loads pins start).1).1
        archive
        (long "b")
    × (archive.sha256 ≡ long "b")
collect-IsVerified_example =
    collect-IsVerified digest urlopen gpgv decode loads pins start image archive (long "b") refl
      collects

abbrev message : Exception → String
message x = "refused"

-- Without a network the report says so.
refused :
    (main digest urlopen gpgv decode loads pins message
        (λ manifest. [])
        ""
        ""
        (record { files = λ name. none; world = []; events = [] })).1.files
      "upstream-verification.md"
    ≡ some (codes "# TinyAgent upstream artifact verification\n\nStatus: failed.\n\nrefused\n")
unfolding main
refused = refl
