-- ===== src/Upgrade/Files.antt =====
-- `directory` and `read` of scripts/upgrade-dnfast-empty.py
use tiny_agent.Base.{
  FilePath, ℕ, String, Bool, true, false, ◌&&◌, Option, none, some, [], ◌∷◌, ◌++◌, if◌then◌else◌,
  ◌==◌, contains, Bytes, Result, ok, err, value_error, os_error, file_not_found, ◌>>=◌,
}
use tiny_agent.Upgrade.{Node, directory, regular, Disk, put}

-- The result of `os.open(part, O_DIRECTORY | O_NOFOLLOW)`, and the test of the owner.
unfoldable pub enter : ℕ → Option Node → Result (Unit {0})
enter owner none = err (file_not_found "")
enter owner (some (directory uid mode)) =
    if uid == owner then ok tt else err (value_error "Upgrade directory owner differs")
enter owner (some _) = err (os_error "Not a directory")

-- `os.mkdir(part, 0o700)`, where a part that exists is left as it is.
unfoldable pub make : ℕ → Bool → FilePath → Disk → Disk
make uid false path disk = disk
make uid true path disk = elim (disk path) [
  | none ↦ put path (some (directory uid 0o700)) disk
  | some node ↦ disk
]

abbrev pub is_invalid : String → Bool
is_invalid part = contains part ("" ∷ "." ∷ ".." ∷ [])

-- The loop over the parts below `prefix`. `uid` is the user that the program runs as.
unfoldable pub walk : ℕ → ℕ → Bool → FilePath → FilePath → Disk → Disk × Result (Unit {0})
unfolding make enter contains
walk owner uid create prefix [] disk = (disk, ok tt)
walk owner uid create prefix (part ∷ parts) disk = elim (is_invalid part) [
  | true ↦ (disk, err (value_error "Invalid upgrade directory"))
  | false ↦
      let path = prefix ++ (part ∷ []) in
      let made = make uid create path disk in
      elim (enter owner (made path)) [
        | err x ↦ (made, err x)
        | ok done ↦ walk owner uid create path parts made
      ]
]

-- The bytes of a regular file, and the mode that `fstat` reports.
unfoldable pub open_file : ℕ → Option Node → Result (Bytes × ℕ)
open_file owner none = err (file_not_found "")
open_file owner (some (regular uid mode links bytes)) =
    if uid == owner && links == 1
    then ok (bytes, mode)
    else err (value_error "Upgrade file metadata differs")
open_file owner (some _) = err (os_error "")

unfoldable pub read : ℕ → FilePath → String → Disk → Result (Bytes × ℕ)
unfolding open_file
read owner parent name disk =
    (walk owner owner false [] parent disk).1
    >>= (λ _. open_file owner (disk (parent ++ (name ∷ []))))
