-- ===== src/Upgrade/Package.antt =====
-- The package part of scripts/upgrade-dnfast-empty.py: the manifest and the overlay of the APK.
use tiny_agent.Base.{
  lookup, has, FilePath, ℕ, ◌*◌, String, Bool, true, false, not, ◌&&◌, Option, none, some, List, [],
  ◌∷◌, ◌++◌, ltb, str_eq, Bytes, Result, ok, guard, assertion, value_error, ◌>>=◌, ◌>>◌,
}

-- What the program reads of the APK.
pub record Apk : Type 0 where
  pub manifest_size : ℕ
  pub raw : Bytes
  pub overlay_size : ℕ
  pub overlay : Bytes

-- The parsed manifest: the digest of the overlay, and the digest of each file.
pub record Manifest : Type 0 where
  pub overlay_sha256 : String
  pub files : List (FilePath × String)

-- A member of the overlay's archive.
pub record Member : Type 0 where
  pub is_file : Bool
  pub name : FilePath
  pub content : Bytes

-- `set(payloads) == set(manifest['files'])`, where every payload is in the manifest already.
unfoldable pub has_all : List (FilePath × String) → List (FilePath × Bytes) → Bool
unfolding has
has_all [] payloads = true
has_all ((name, expected) ∷ files) payloads = has name payloads && has_all files payloads

module _ (digest : Bytes → String) where
  abbrev pub matches : Bytes → Option String → Bool
  matches bytes none = false
  matches bytes (some expected) = str_eq (digest bytes) expected

  -- The loop over the members.
  unfoldable pub unpack :
      List (FilePath × String)
      → List Member
      → List (FilePath × Bytes)
      → Result (List (FilePath × Bytes))
  unfolding has
  unpack files [] payloads = ok payloads
  unpack files (m ∷ ms) payloads = do
    guard (m.is_file && (has m.name files && not (has m.name payloads)))
        (value_error "Unexpected upgrade member")
    guard (matches m.content (lookup m.name files)) (value_error "Upgrade member mismatch")
    unpack files ms (payloads ++ ((m.name, m.content) ∷ []))

  module _ (loads : Bytes → Result Manifest) (members : Bytes → Result (List Member)) where
    unfoldable pub open_package : String → Apk → Result (Manifest × List (FilePath × Bytes))
    unfolding unpack has_all
    open_package pinned apk = do
      guard (ltb apk.manifest_size (1024 * 1024)) (assertion "")
      guard (str_eq (digest apk.raw) pinned) (value_error "Upgrade manifest mismatch")
      manifest ← loads apk.raw
      guard (ltb apk.overlay_size (64 * 1024 * 1024)) (assertion "")
      guard (str_eq (digest apk.overlay) manifest.overlay_sha256)
          (value_error "Upgrade overlay mismatch")
      found ← members apk.overlay
      payloads ← unpack manifest.files found []
      guard (has_all manifest.files payloads) (value_error "Incomplete upgrade")
      ok (manifest, payloads)
