-- ===== src/Snapshot/Verify.antt =====
-- scripts/verify-source-snapshot.py
use tiny_agent.Base.{
  ℕ, String, ◌<>◌, length, Bytes, Result, ok, assertion, guard, ◌>>=◌, ◌>>◌, check_all,
}
use tiny_agent.Json.{Json, text, index, items_of, json_eq}
use tiny_agent.Snapshot.{is_inside}

-- The archive's members, the digest, and JSON's reader.
module _ (read : String → Result Bytes) (digest : Bytes → String)
    (loads : Bytes → Result Json) where
  -- One round of the loop over the snapshot's names.
  unfoldable pub verify_file : String × Json → Result (Unit {0})
  unfolding json_eq
  verify_file (name, expected) = do
    guard (is_inside name) (assertion "")
    data_read ← read ("TinyAgent/" <> name)
    guard (json_eq (text (digest data_read)) expected) (assertion name)

  -- The number of files, and the digest of the APK, as they are printed.
  unfoldable pub verify : Result (ℕ × Json)
  unfolding verify_file index items_of check_all
  verify = do
    raw ← read "TinyAgent/SOURCE-SNAPSHOT.json"
    snapshot ← loads raw
    hashes ← index snapshot "files_sha256"
    rows ← items_of hashes
    check_all verify_file rows
    apk ← index snapshot "apk_sha256"
    ok (length rows, apk)
