-- ===== src/Upgrade/Publish.antt =====
-- `publish` of scripts/upgrade-dnfast-empty.py
use tiny_agent.Base.{
  FilePath, ℕ, String, ◌<>◌, Bool, true, false, Option, none, some, [], ◌∷◌, ◌++◌, length, take,
  bytes_eq, Bytes, Result, ok, err, value_error, os_error,
}
use tiny_agent.Upgrade.{Node, directory, regular, put, Exec, ◌>>=◌, ◌>>◌, reading}
use tiny_agent.Upgrade.Files.{walk, open_file}

abbrev pub temp_of : String → String
temp_of name = name <> ".tinyagent-new"

abbrev pub at : FilePath → String → FilePath
at parent name = parent ++ (name ∷ [])

-- `data.startswith(saved)`
unfoldable pub begins_with : Bytes → Bytes → Bool
unfolding bytes_eq
begins_with bytes saved = bytes_eq (take (length saved) bytes) saved

abbrev pub make_parent : ℕ → ℕ → FilePath → Exec (Unit {0})
make_parent owner uid parent root =
    let (disk, result) = walk owner uid true [] parent root.disk in
    (record root { disk = disk }, result)

-- The temporary file with all of the data: created, or completed where an interrupted run has
-- left a beginning of it.
unfoldable pub staged : ℕ → ℕ → ℕ → Bytes → Option Node → Result Node
unfolding open_file begins_with
staged owner uid mode bytes none = ok (regular uid mode 1 bytes)
staged owner uid mode bytes (some (regular u m l saved)) =
    elim (open_file owner (some (regular u m l saved))) [
      | err x ↦ err x
      | ok found ↦ elim (begins_with bytes saved) [
        | true ↦ ok (regular u m l bytes)
        | false ↦ err (value_error "Interrupted staging differs; preserved")
      ]
    ]
staged owner uid mode bytes (some _) = err (os_error "")

-- `os.replace(temp, name)`, which fails on a directory.
unfoldable pub replace : FilePath → String → Bytes → Node → Exec (Unit {0})
replace parent name bytes node root = elim (root.disk (at parent name)) [
  | some (directory uid mode) ↦ (
    record root { disk = put (at parent (temp_of name)) (some node) root.disk },
    err (os_error "Is a directory"),
  )
  | _ ↦ (
    record {
      disk = put (at parent name) (some node) (put (at parent (temp_of name)) none root.disk);
      published = root.published ++ ((at parent name, bytes) ∷ []);
    },
    ok tt,
  )
]

unfoldable pub publish : ℕ → ℕ → FilePath → String → Bytes → ℕ → Exec (Unit {0})
unfolding staged replace
publish owner uid parent name bytes mode = do
  make_parent owner uid parent
  node ← reading (λ disk. staged owner uid mode bytes (disk (at parent (temp_of name))))
  replace parent name bytes node
