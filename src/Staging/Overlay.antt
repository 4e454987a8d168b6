-- ===== src/Staging/Overlay.antt =====
-- scripts/stage-dnfast-runtime.py
use tiny_agent.Base.{
  contains, ◌++◌, map, ℕ, ◌*◌, String, ◌<>◌, Bool, true, false, not, List, [], ◌∷◌, leb, Bytes,
  Result, ok, assertion, value_error, guard, ◌>>=◌, ◌>>◌,
}
use tiny_agent.Json.{Json, text, index, has_part, set_of, same_set, json_eq}
use tiny_agent.Staging.{TapeMember, Installed, is_inner}

abbrev pub manifest_digest : String
manifest_digest = "ec8599eb4b44266abbbcafa0952a67d29d96d4ff5572566ad403c0c425492699"

abbrev pub check_size : Installed → String → ℕ → Result (Unit {0})
check_size installed name limit = do
  size ← installed.size name
  guard (leb size limit) (value_error ("Oversized dnfast input: " <> name))

-- The manifest and the archive, from the installed package.
unfoldable pub read_installed : Installed → Result (Bytes × Bytes)
read_installed installed = do
  check_size installed "assets/dnfast-manifest.json" (1024 * 1024)
  check_size installed "assets/dnfast-root-overlay.tar.gz.bin" (64 * 1024 * 1024)
  manifest ← installed.read "assets/dnfast-manifest.json"
  archive ← installed.read "assets/dnfast-root-overlay.tar.gz.bin"
  ok (manifest, archive)

-- `member.isfile() and member.name in data['files']`
abbrev pub is_listed : Json → TapeMember → Bool → Result Bool
is_listed document member false = ok false
is_listed document member true = index document "files" >>= has_part member.name

module _ (digest : Bytes → String) where
  -- A member that is no directory.
  abbrev pub check_regular : Json → TapeMember → List String → Result (List String)
  check_regular document member found = do
    listed ← is_listed document member member.is_file
    guard listed (assertion member.name)
    guard (not (contains member.name found)) (assertion member.name)
    content ← member.content
    files ← index document "files"
    expected ← index files member.name
    guard (json_eq (text (digest content)) expected) (assertion member.name)
    ok (found ++ (member.name ∷ []))

  abbrev pub check_kind : Json → TapeMember → List String → Bool → Result (List String)
  check_kind document member found true = ok found
  check_kind document member found false = check_regular document member found

  abbrev pub check_member : Json → TapeMember → List String → Result (List String)
  check_member document member found =
      guard (is_inner member.name) (assertion member.name)
      >> check_kind document member found member.is_dir

  -- The loop over the members, with what it found before.
  unfoldable pub check_members : Json → List TapeMember → List String → Result (List String)
  unfolding index has_part json_eq contains
  check_members document [] found = ok found
  check_members document (member ∷ members) found =
      check_member document member found >>= check_members document members

  -- The archive has the digest of the manifest, and its members are the files of the manifest.
  unfoldable pub check_overlay :
      (Bytes → Result (List TapeMember)) → Json → Bytes → Result (Unit {0})
  unfolding check_members index set_of same_set json_eq
  check_overlay untar document archive = do
    expected ← index document "overlay_sha256"
    guard (json_eq (text (digest archive)) expected) (value_error "dnfast overlay hash mismatch")
    members ← untar archive
    found ← check_members document members []
    files ← index document "files"
    names ← set_of files
    guard (same_set (map text found) names) (assertion "")
