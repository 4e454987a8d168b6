-- ===== src/Packaged/Web.antt =====
-- The files of the interface in scripts/check-packaged-runtime.py
use tiny_agent.Base.{
  String, ◌<>◌, Bool, not, ◌&&◌, contains, split, starts_with, occurs, Result, assertion, guard,
  ◌>>=◌, ◌>>◌, check_all,
}
use tiny_agent.Json.{Json, text, index, items_of, json_eq, set_of, is_subset, has_part}
use tiny_agent.Packaged.{Build, check_digest}

-- The path of a file of the interface.
abbrev pub is_web_path : String → Bool
is_web_path path =
    starts_with path "/" && (not (contains ".." (split b'/' path)) && not (occurs "\\" path))

module _ (build : Build) where
  unfoldable pub check_web_file : String × Json → Result (Unit {0})
  unfolding check_digest contains
  check_web_file (path, digest) = do
    guard (is_web_path path) (assertion "")
    check_digest build ("assets/web-ui" <> path) digest

  -- The two tables of the manifest have the same keys.
  unfoldable pub check_tables : Json → Json → Result (Unit {0})
  unfolding set_of is_subset
  check_tables files sha256 = do
    names ← set_of files
    hashed ← set_of sha256
    guard (is_subset names hashed && is_subset hashed names) (assertion "")

  unfoldable pub check_policy : Json → Result (Unit {0})
  unfolding has_part
  check_policy csp = do
    connects ← has_part "connect-src 'self'" csp
    guard connects (assertion "")
    scripts ← has_part "script-src 'self' 'wasm-unsafe-eval' 'sha256-" csp
    guard scripts (assertion "")

  unfoldable pub check_web : Result (Unit {0})
  unfolding index json_eq check_tables has_part items_of check_all check_web_file check_policy
  check_web = do
    raw ← build.archive.read "assets/web-ui-manifest.json"
    manifest ← build.loads raw
    version ← index manifest "version"
    guard (json_eq version (text "1.18.29")) (assertion "")
    files ← index manifest "files"
    sha256 ← index manifest "sha256"
    check_tables files sha256
    indexed ← has_part "/index.html" files
    guard indexed (assertion "")
    rows ← items_of sha256
    check_all check_web_file rows
    csp ← index manifest "csp"
    check_policy csp
