-- ===== src/Upstream/Checks.antt =====
-- `checksum_for`, `validate_signature` and the checks of the release in scripts/collect_upstream.py
use tiny_agent.Base.{
  split, strip_prefix, split_lines, words, occurs, codes, is_hex_text, ℕ, zero, suc, String, ◌<>◌,
  Bool, false, not, ◌&&◌, ◌||◌, Option, none, some, List, [], ◌∷◌, if◌then◌else◌, ◌==◌, leb, length,
  drop, str_eq, starts_with, Result, ok, err, runtime_error, type_error, attribute_error, guard,
  ◌>>=◌, ◌>>◌,
}
use tiny_agent.Json.{Json, text, object, index, get, find, is_true, elements, json_eq}

abbrev pub digest_of : Option String → Option String
digest_of none = none
digest_of (some hex) = if is_hex_text 64 (codes hex) then some hex else none

-- The one entry of `re.findall` in a line: the digest behind the name.
unfoldable pub entry : String → String → Option String
unfolding is_hex_text
entry filename line = digest_of (strip_prefix ("SHA256 (" <> (filename <> ") = ")) line)

abbrev pub add_entry : Option String → List String → List String
add_entry none found = found
add_entry (some hex) found = hex ∷ found

unfoldable pub entries : String → List String → List String
unfolding entry
entries filename [] = []
entries filename (line ∷ rest) = add_entry (entry filename line) (entries filename rest)

abbrev pub only_entry : List String → Result String
only_entry (hex ∷ []) = ok hex
only_entry _ = err (runtime_error "Expected one signed SHA256 entry")

unfoldable pub checksum_for : String → String → Result String
unfolding entries
checksum_for content filename = only_entry (entries filename (split b'\n' content))

abbrev nth : ℕ → List String → String
nth n [] = ""
nth zero (x ∷ xs) = x
nth (suc n) (x ∷ xs) = nth n xs

-- The fields of a VALIDSIG line are of the pinned key.
abbrev pub is_pinned : String → List String → Bool
is_pinned fingerprint fields =
    leb 9 (length fields)
    && (str_eq (nth 0 fields) fingerprint
        || length fields == 10 && str_eq (nth 9 fields) fingerprint)

unfoldable pub has_signature : String → List String → Bool
has_signature fingerprint [] = false
has_signature fingerprint (line ∷ lines) =
    starts_with line "[GNUPG:] VALIDSIG " && is_pinned fingerprint (drop 2 (words line))
    || has_signature fingerprint lines

unfoldable pub has_failure : String → List String → Bool
has_failure status [] = false
has_failure status (failure ∷ failures) =
    occurs ("[GNUPG:] " <> failure) status || has_failure status failures

abbrev pub failures : List String
failures = "BADSIG" ∷ "ERRSIG" ∷ "REVKEYSIG" ∷ "EXPKEYSIG" ∷ "EXPSIG" ∷ []

unfoldable pub validate_signature : String → String → Result (Unit {0})
unfolding has_signature has_failure
validate_signature fingerprint status = do
  guard (has_signature fingerprint (split_lines status))
      (runtime_error "CHECKSUM has no valid signature from the pinned Fedora 44 key")
  guard (not (has_failure status failures))
      (runtime_error "GPG reports an invalid/expired/revoked CHECKSUM signature")

-- The release's tag, and that it is neither a draft nor a prerelease.
unfoldable pub check_release : Json → Result (Unit {0})
unfolding get json_eq is_true
check_release release = do
  tag ← get release "tag_name"
  guard (json_eq tag (text "v1.18.29"))
      (runtime_error "Unexpected OpenCode release identity/status")
  draft ← get release "draft"
  guard (not (is_true draft)) (runtime_error "Unexpected OpenCode release identity/status")
  prerelease ← get release "prerelease"
  guard (not (is_true prerelease)) (runtime_error "Unexpected OpenCode release identity/status")

unfoldable pub assets_named : String → List Json → Result (List Json)
unfolding index json_eq
assets_named name [] = ok []
assets_named name (item ∷ items) = do
  found ← index item "name"
  more ← assets_named name items
  ok (if json_eq found (text name) then item ∷ more else more)

abbrev pub only_asset : List Json → Result Json
only_asset (asset ∷ []) = ok asset
only_asset _ = err (runtime_error "Expected exactly one OpenCode Linux ARM64 asset")

-- `asset.get('digest', '')` and the match of it: the digits behind the colon.
abbrev pub match_digest : Option String → Result String
match_digest none =
    err (runtime_error "GitHub release API does not provide the required SHA256 digest")
match_digest (some hex) =
    if is_hex_text 64 (codes hex)
    then ok hex
    else err (runtime_error "GitHub release API does not provide the required SHA256 digest")

abbrev pub hex_of : Option Json → Result String
hex_of none = match_digest none
hex_of (some (text s)) = match_digest (strip_prefix "sha256:" s)
hex_of (some _) = err (type_error "expected string or bytes-like object")

unfoldable pub asset_digest : Json → Result String
unfolding is_hex_text
asset_digest (object kvs) = hex_of (find "digest" kvs)
asset_digest _ = err (attribute_error "get")

-- The one asset of the release with its digest, its address checked.
unfoldable pub read_release : String → String → Json → Result (Json × String)
unfolding check_release assets_named asset_digest index elements json_eq
read_release name expected_url release = do
  check_release release
  assets ← index release "assets"
  items ← elements assets
  named ← assets_named name items
  asset ← only_asset named
  hex ← asset_digest asset
  url ← index asset "browser_download_url"
  guard (json_eq url (text expected_url)) (runtime_error "Unexpected OpenCode asset URL")
  tag ← index release "tag_name"
  id ← index release "id"
  published ← index release "published_at"
  asset_id ← index asset "id"
  ok (asset, hex)
