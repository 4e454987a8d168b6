-- ===== src/Upgrade/Checks.antt =====
-- The checks of scripts/upgrade-dnfast-empty.py before and behind the installation.
use tiny_agent.Base.{
  lookup, FilePath, ℕ, String, ◌<>◌, Bool, true, false, ◌&&◌, ◌||◌, Option, none, some, List, [],
  ◌∷◌, if◌then◌else◌, ◌==◌, str_eq, bytes_eq, is_hex_text, Bytes, Result, ok, err, value_error,
  key_error, file_not_found, os_error, ◌>>=◌, ◌>>◌, guard,
}
use tiny_agent.Upgrade.{Node, directory, Disk}
use tiny_agent.Upgrade.Files.{walk, read}

-- `MANIFEST`, `BACKUP` and `OLD`.
pub record Config : Type 0 where
  pub manifest : String
  pub backup : String
  pub old : List (FilePath × String)

-- `relative.rsplit('/', 1)`
unfoldable pub split_last : FilePath → FilePath × String
split_last [] = ([], "")
split_last (name ∷ []) = ([], name)
split_last (part ∷ rest) = let (parent, name) = split_last rest in (part ∷ parent, name)

-- `name.replace('/', '_')`
unfoldable pub flat_name : FilePath → String
flat_name [] = ""
flat_name (name ∷ []) = name
flat_name (part ∷ rest) = part <> ("_" <> flat_name rest)

abbrev pub is_directory : Option Node → Bool
is_directory (some (directory uid mode)) = true
is_directory _ = false

abbrev pub mode_of : Option Node → ℕ
mode_of (some (directory uid mode)) = mode
mode_of _ = 0

module _ (digest : Bytes → String)
    -- `identity.decode()`
    (decode : Bytes → String)
    -- the owner of the root, and the user that the program runs as
    (owner uid : ℕ) where
  unfoldable pub read_at : FilePath → Disk → Result (Bytes × ℕ)
  unfolding split_last read
  read_at path disk = let (parent, name) = split_last path in read owner parent name disk

  -- `read`, where a missing file is no error.
  abbrev pub missing_as_none : Result (Bytes × ℕ) → Result (Option Bytes)
  missing_as_none (ok (bytes, mode)) = ok (some bytes)
  missing_as_none (err (file_not_found m)) = ok none
  missing_as_none (err x) = err x

  abbrev pub state_path : Bytes → FilePath
  state_path identity = "var" ∷ "lib" ∷ "dnfast" ∷ "app-proot" ∷ decode identity ∷ []

  abbrev pub backup_path : Config → Bytes → FilePath
  backup_path config identity =
      "var" ∷ "lib" ∷ "dnfast-upgrades" ∷ config.backup ∷ decode identity ∷ []

  -- The lock on the root is taken without waiting; the root's own permissions are 0o700.
  unfoldable pub check_root : Bool → Disk → Result (Unit {0})
  check_root locked disk =
      if locked
      then err (os_error "Resource temporarily unavailable")
      else if mode_of (disk []) == 0o700
      then ok tt
      else err (value_error "Root permissions differ")

  unfoldable pub check_identity : Disk → Result Bytes
  unfolding read_at is_hex_text
  check_identity disk = do
    found ← read_at (".tinyagent-root-id" ∷ []) disk
    guard (is_hex_text 64 found.0 && found.1 == 0o600) (value_error "Invalid existing root ID")
    ok found.0

  -- The state directory is opened, and its permissions are 0o700.
  unfoldable pub check_state_directory : Bytes → Disk → Result (Unit {0})
  unfolding walk
  check_state_directory identity disk =
      elim (walk owner uid false [] (state_path identity) disk).1 [
        | err x ↦ err x
        | ok done ↦
            if mode_of (disk (state_path identity)) == 0o700
            then ok tt
            else err (value_error "Package state permissions differ")
      ]

  -- An installed executable is the old one or the new one.
  unfoldable pub check_previous : Option String → String → Bytes → Result Bytes
  check_previous none expected bytes = err (key_error "")
  check_previous (some new) expected bytes =
      if str_eq (digest bytes) expected || str_eq (digest bytes) new
      then ok bytes
      else err (value_error "Unknown installed executable")

  unfoldable pub read_previous :
      List (FilePath × String) → List (FilePath × String) → Disk → Result (List (FilePath × Bytes))
  unfolding check_previous read_at lookup
  read_previous [] files disk = ok []
  read_previous ((name, expected) ∷ rest) files disk = do
    found ← read_at name disk
    bytes ← check_previous (lookup name files) expected found.0
    more ← read_previous rest files disk
    ok ((name, bytes) ∷ more)

  unfoldable pub check_files : List (FilePath × String) → Disk → Result (Unit {0})
  unfolding read_at
  check_files [] disk = ok tt
  check_files ((name, expected) ∷ rest) disk = do
    found ← read_at name disk
    guard (str_eq (digest found.0) expected) (value_error "Published upgrade differs")
    check_files rest disk

  unfoldable pub check_identity_again : Bytes → Disk → Result (Unit {0})
  unfolding read_at
  check_identity_again identity disk = do
    found ← read_at (".tinyagent-root-id" ∷ []) disk
    guard (bytes_eq found.0 identity) (value_error "Root ID changed during upgrade")
    ok tt
