-- ===== src/Tests/Sdk.antt =====
-- A preparation of scripts/prepare-android-sdk-fedora.py with one small archive.
use tiny_agent.Base.{
  path_eq, contains, ◌≡◌, refl, String, true, false, none, some, List, [], ◌∷◌, if◌then◌else◌, ◌==◌,
  ◌*◌, Bytes, Result, ok, err, url_error, assertion, os_error,
}
use tiny_agent.Json.{Json, array, values_of}
use tiny_agent.Upstream.{Body, end, broken, piece}
use tiny_agent.Host.{Host}
use tiny_agent.Host.Rules.{AreRounds}
use tiny_agent.Sdk.{download_file}
use tiny_agent.Sdk.Unpack.{Tree, ZipMember, unpack}
use tiny_agent.Sdk.Safe.{IsUnpacked, unpack-IsUnpacked}
use tiny_agent.Sdk.Prepare.{Pin, Site, is_local, prepare_inputs}
use tiny_agent.Sdk.Verified.{EndsWell, download_file-EndsWell}
use tiny_agent.Sdk.Provenance.{IsProvenance, prepare_inputs-AreRounds}

abbrev Network : Type 0
Network = List (Result Body)

abbrev urlopen : String → Network → Result Body × Network
urlopen url [] = (err (url_error "refused"), [])
urlopen url (body ∷ rest) = (body, rest)

abbrev digest : String → Bytes → String
digest algorithm [] = "none"
digest algorithm (x ∷ xs) = if x == 7 then "seven" else "other"

abbrev extractall : Bytes → Result Tree
extractall content = ok []

abbrev good : ZipMember
good = record {
  filename = "sdk/tool";
  is_dir = false;
  content = ok (1 ∷ []);
  external_attr = 0o755 * 65536;
}

abbrev evil : ZipMember
evil = record { filename = "../escape"; is_dir = false; content = ok (1 ∷ []); external_attr = 0 }

abbrev infolist : Bytes → Result (List ZipMember)
infolist content = ok (good ∷ [])

abbrev dumps : Json → Bytes
dumps document = 0 ∷ []

abbrev flock : Site Network → Result (Unit {0}) × Site Network
flock site = (ok tt, site)

abbrev machine : String
machine = "aarch64"

abbrev pin : Pin
pin = record {
  name = "p.zip";
  url = "https://h/p.zip";
  algorithm = "sha1";
  expected = "seven";
  size = 2;
}

abbrev start : Host (Site Network)
start = record {
  files = λ path. none;
  world = record {
    network = ok (piece (7 ∷ []) (piece (8 ∷ []) end)) ∷ [];
    unpacked = λ name. none;
  };
}

abbrev prepared : Result (Unit {0}) × Host (Site Network)
prepared =
    prepare_inputs digest urlopen extractall infolist dumps (some "fedora-local") machine flock
      (pin ∷ []) start

prepares : prepared.0 ≡ ok tt
unfolding prepare_inputs path_eq contains
prepares = refl

prepare_inputs-AreRounds_example :
    (is_local (some "fedora-local") ≡ true)
    × (machine ≡ "aarch64")
    × ((report : List Json) × (prepared.1.files ("provenance.json" ∷ [])
          ≡ some (dumps (array (values_of report))))
        × AreRounds
            (IsProvenance digest urlopen extractall infolist dumps
              (some "fedora-local")
              machine
              flock)
            (pin ∷ [])
            report)
unfolding prepare_inputs path_eq contains
prepare_inputs-AreRounds_example =
    prepare_inputs-AreRounds digest urlopen extractall infolist dumps (some "fedora-local") machine
      flock (pin ∷ []) start prepared.1 refl

-- A transfer that is cut off.
abbrev cut : Host Network
cut = record { files = λ path. none; world = ok (piece (7 ∷ []) (broken (os_error "reset"))) ∷ [] }

download_file-EndsWell_example :
    EndsWell digest urlopen "sha1" "seven" 2 "p.zip" [] cut.files
      (download_file digest urlopen "https://h/p.zip" ("p.zip" ∷ []) "sha1" "seven" 2 cut)
download_file-EndsWell_example =
    download_file-EndsWell digest urlopen "sha1" "seven" 2 "p.zip" [] "https://h/p.zip" cut

unpack-IsUnpacked_example :
    IsUnpacked extractall infolist "p.zip"
      (ok (9 ∷ []))
      none
      (unpack extractall infolist "p.zip" (ok (9 ∷ [])) none)
unpack-IsUnpacked_example = unpack-IsUnpacked extractall infolist "p.zip" (ok (9 ∷ [])) none

-- The mode of a program, and a name that leads outside.
unpacks :
    (unpack extractall infolist "p.zip" (ok []) none
      ≡ (ok tt, some (record { path = "sdk" ∷ "tool" ∷ []; content = 1 ∷ []; mode = 0o755 } ∷ [])))
    × (unpack extractall (λ content. ok (good ∷ evil ∷ [])) "p.zip" (ok []) none
        ≡ (err (assertion ""), none))
unfolding unpack contains
unpacks = (refl, refl)
