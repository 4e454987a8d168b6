-- ===== src/Snapshot/Publish.antt =====
-- scripts/export-private-source.py as a whole.
use tiny_agent.Base.{
  FilePath, suffix, file_name, is_some, strip, String, true, Option, none, some, List, [], ◌∷◌,
  length, ℕ, Bytes, str_eq, Result, ok, err, assertion, attribute_error, os_error, file_not_found,
  guard, ◌>>=◌, ◌>>◌,
}
use tiny_agent.Json.{Json, boolean, text, object, no_fields, pairs, set_field}
use tiny_agent.Snapshot.{Entry, file, directory, Tree, put, Checkout, ApkFile}
use tiny_agent.Snapshot.Order.{sorted_set}
use tiny_agent.Snapshot.Gather.{or_missing, gather}
use tiny_agent.Snapshot.Export.{Progress, export_files}

abbrev pub snapshot_path : FilePath
snapshot_path = "SOURCE-SNAPSHOT.json" ∷ []

abbrev pub read_entry : Option Entry → Result Bytes
read_entry none = err (file_not_found "")
read_entry (some directory) = err (os_error "Is a directory")
read_entry (some (file content)) = ok content

abbrev pub hash_scope : String
hash_scope =
    "Git archive bytes after repository checkout filters and EOL attributes; original hashes retained for normalized working files"

-- `snapshot.update(...)`
unfoldable pub update_snapshot : String → Progress → String → Json → Result Json
update_snapshot base_commit p apk_sha256 (object kvs) = ok (
    object (
      set_field "apk_sha256" (text apk_sha256) (
        set_field "file_hash_scope" (text hash_scope) (
          set_field "original_files_sha256_before_git_normalization" (object p.raw_normalized) (
            set_field "files_sha256" (object p.hashes) (
              set_field "includes_working_tree_changes" (boolean true)
                (set_field "base_commit" (text base_commit) kvs)))))))
update_snapshot base_commit p apk_sha256 _ = err (attribute_error "update")

-- `write_text`
unfoldable pub write_entry : FilePath → Bytes → Tree → Result (Unit {0}) × Tree
write_entry path content tree = elim (tree path) [
  | some directory ↦ (err (os_error "Is a directory"), tree)
  | _ ↦ (ok tt, put path (file content) tree)
]

-- The digest, git, and JSON's reader and writer; the working directory and the APK.
module _ (digest : Bytes → String) (canonical : Tree → String → Bytes → Result Bytes)
    (origin : Tree → Result String) (loads : Bytes → Result Json) (dumps : Json → Bytes)
    (source : Checkout) (apk : ApkFile) where
  -- The asserts, and the snapshot before with the names to export.
  unfoldable pub prepare : Tree → Result (Json × List String)
  unfolding gather sorted_set
  prepare tree = do
    guard (is_some apk.content) (assertion "")
    guard (str_eq (suffix (file_name apk.path)) ".apk") (assertion "")
    url ← origin tree
    guard (str_eq (strip url) "https://github.com/GPLaider/TinyAgent.git") (assertion "")
    raw ← read_entry (tree snapshot_path)
    snapshot ← loads raw
    names ← gather loads source snapshot
    ok (snapshot, sorted_set names)

  -- The snapshot that is written.
  unfoldable pub complete : Json → Progress → Result Json
  unfolding update_snapshot
  complete snapshot p = do
    head ← source.head
    content ← or_missing apk.content
    update_snapshot (strip head) p (digest content) snapshot

  abbrev pub report_export : Progress → Result (Unit {0}) × Tree → Result (ℕ × List String) × Tree
  report_export p (err x, tree) = (err x, tree)
  report_export p (ok done, tree) = (ok (length (pairs p.hashes), p.changed), tree)

  abbrev pub publish : Progress → Result Json → Result (ℕ × List String) × Tree
  publish p (err x) = (err x, p.tree)
  publish p (ok snapshot) = report_export p (write_entry snapshot_path (dumps snapshot) p.tree)

  abbrev pub finish_export : Json → Result (Unit {0}) × Progress → Result (ℕ × List String) × Tree
  finish_export snapshot (err x, p) = (err x, p.tree)
  finish_export snapshot (ok done, p) = publish p (complete snapshot p)

  -- What is printed: the number of the files, and those that were written.
  unfoldable pub export_source : Tree → Result (ℕ × List String) × Tree
  unfolding prepare complete export_files write_entry
  export_source tree = elim (prepare tree) [
    | err x ↦ (err x, tree)
    | ok (snapshot, names) ↦ finish_export snapshot (
        export_files digest canonical source names
          (record { hashes = no_fields; raw_normalized = no_fields; changed = []; tree = tree }))
  ]
