-- ===== src/Packaged.antt =====
-- The runtime in the APK: what scripts/stage-runtime-assets.py stages, and what
-- scripts/check-packaged-runtime.py checks of a package.
pub mod Pins
pub mod Notices
pub mod Native
pub mod Web
pub mod Check
pub mod Covered
pub mod Verified
use tiny_agent.Base.{
  ℕ, String, ◌<>◌, Bool, List, Bytes, bytes_eq, Result, ok, err, assertion, type_error, guard,
  ◌>>=◌, ◌>>◌,
}
use tiny_agent.Json.{Json, joined, text, index, json_eq}

-- `args.apk`: the size of the file, and the archive in it with the compressed sizes of its entries.
pub record Package : Type 0 where
  pub size : ℕ
  pub compressed : List ℕ
  pub names : List String
  pub read : String → Result Bytes

-- The package, the files below ROOT, the digest, and JSON's reader.
pub record Build : Type 0 where
  pub archive : Package
  pub read_root : String → Result Bytes
  pub digest : Bytes → String
  pub loads : Bytes → Result Json

module _ (build : Build) where
  -- `json.loads((ROOT / name).read_text())`
  unfoldable pub read_json : String → Result Json
  read_json name = build.read_root name >>= build.loads

  -- `assert archive.read(name) == (ROOT / source).read_bytes()`
  unfoldable pub check_same : String → String → Result (Unit {0})
  unfolding bytes_eq
  check_same name source = do
    packaged ← build.archive.read name
    original ← build.read_root source
    guard (bytes_eq packaged original) (assertion name)

  -- `assert hashlib.sha256(archive.read(name)).hexdigest() == expected`
  unfoldable pub check_digest : String → Json → Result (Unit {0})
  unfolding json_eq
  check_digest name expected = do
    content ← build.archive.read name
    guard (json_eq (text (build.digest content)) expected) (assertion name)

  -- The same, with the digest under a key of a document.
  unfoldable pub check_indexed : String → Json → String → Result (Unit {0})
  unfolding json_eq index
  check_indexed name document key = do
    content ← build.archive.read name
    expected ← index document key
    guard (json_eq (text (build.digest content)) expected) (assertion name)

  -- A notice with the name of its file below `prefix` under a key, and its digest.
  unfoldable pub check_named : String → String → String → Json → Result (Unit {0})
  unfolding index check_indexed joined
  check_named prefix key expected_key notice = do
    name ← index notice key
    path ← joined prefix name
    check_indexed path notice expected_key
