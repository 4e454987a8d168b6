-- ===== src/Snapshot/Export.antt =====
-- scripts/export-private-source.py: the loop that copies the files and notes their digests.
use tiny_agent.Base.{
  FilePath, suffix, file_name, parts, ancestors, is_some, String, Bool, true, false, not, none,
  some, List, [], ◌∷◌, ◌++◌, if◌then◌else◌, contains, Bytes, bytes_eq, Result, ok, err, assertion,
  file_exists, os_error, guard, ◌>>◌,
}
use tiny_agent.Json.{text, Fields, set_field}
use tiny_agent.Snapshot.{is_inside, file, directory, Tree, put, Checkout}
use tiny_agent.Snapshot.Gather.{or_missing}

-- The asserts on a name that is exported.
unfoldable pub is_allowed : String → Bool
unfolding contains
is_allowed name =
    not (contains (suffix (file_name (parts name))) (".keystore" ∷ ".jks" ∷ ".apk" ∷ ".bin" ∷ []))

-- The asserts on a name, and the bytes of the file.
unfoldable pub read_original : Checkout → String → Result Bytes
unfolding is_allowed
read_original source name = do
  guard (is_inside name) (assertion "")
  guard (is_allowed name) (assertion "")
  guard (is_some (source.files (parts name))) (assertion name)
  or_missing (source.files (parts name))

-- `mkdir(parents=True, exist_ok=True)`, from the outermost directory on
unfoldable pub make_parents : List FilePath → Tree → Result (Unit {0}) × Tree
make_parents [] tree = (ok tt, tree)
make_parents (path ∷ paths) tree = elim (tree path) [
  | none ↦ make_parents paths (put path directory tree)
  | some directory ↦ make_parents paths tree
  | some (file content) ↦ (err (file_exists ""), tree)
]

abbrev pub write : FilePath → Bytes → Result (Unit {0}) × Tree → Result Bool × Tree
write path content (err x, tree) = (err x, tree)
write path content (ok done, tree) = (ok true, put path (file content) tree)

-- The file of the checkout is written where it is missing or differs: whether it was.
unfoldable pub copy_file : FilePath → Bytes → Tree → Result Bool × Tree
unfolding make_parents bytes_eq
copy_file path content tree = elim (tree path) [
  | none ↦ write path content (make_parents (ancestors path) tree)
  | some directory ↦ (err (os_error "Is a directory"), tree)
  | some (file old) ↦
      if bytes_eq old content
      then (ok false, tree)
      else write path content (make_parents (ancestors path) tree)
]

-- The variables of the loop.
pub record Progress : Type 0 where
  pub hashes : Fields
  pub raw_normalized : Fields
  pub changed : List String
  pub tree : Tree

abbrev pub appended : String → Bool → List String → List String
appended name copied changed = if copied then changed ++ (name ∷ []) else changed

-- The digest, the two calls of git on a file of the checkout, and the working directory.
module _ (digest : Bytes → String) (canonical : Tree → String → Bytes → Result Bytes)
    (source : Checkout) where
  unfoldable pub record_hashes :
      String → Bytes → Result Bytes → Progress → Result (Unit {0}) × Progress
  record_hashes name original (err x) p = (err x, p)
  record_hashes name original (ok content) p = (
    ok tt,
    record p {
      hashes = set_field name (text (digest content)) p.hashes;
      raw_normalized =
          if bytes_eq content original
          then p.raw_normalized
          else set_field name (text (digest original)) p.raw_normalized;
    },
  )

  unfoldable pub note :
      String → Bytes → Result Bool × Tree → Progress → Result (Unit {0}) × Progress
  unfolding record_hashes
  note name original (err x, tree) p = (err x, record p { tree = tree })
  note name original (ok copied, tree) p =
      record_hashes name original (canonical tree name original)
        (record p { changed = appended name copied p.changed; tree = tree })

  unfoldable pub export_file : String → Progress → Result (Unit {0}) × Progress
  unfolding read_original copy_file note
  export_file name p = elim (read_original source name) [
    | err x ↦ (err x, p)
    | ok original ↦ note name original (copy_file (parts name) original p.tree) p
  ]

  unfoldable pub export_files : List String → Progress → Result (Unit {0}) × Progress
  unfolding export_file
  export_files [] p = (ok tt, p)
  export_files (name ∷ names) p =
      let (result, after) = export_file name p in
      let rest = export_files names after in elim result [ err x ↦ (err x, after) | ok done ↦ rest ]
