-- ===== src/Upgrade/Run.antt =====
-- `upgrade` of scripts/upgrade-dnfast-empty.py, with the module variables that
-- scripts/upgrade-dnfast-checked.py replaces as a record.
use tiny_agent.Base.{
  lookup, has, FilePath, ℕ, String, Bool, true, false, Option, none, some, List, [], ◌∷◌,
  if◌then◌else◌, str_eq, bytes_eq, Bytes, Result, value_error, key_error,
}
use tiny_agent.Upgrade.{Exec, ◌>>=◌, ◌>>◌, pure, raise, reading, lift, guard}
use tiny_agent.Upgrade.Package.{Apk, Manifest, Member, open_package}
use tiny_agent.Upgrade.State.{Items, Row, Verdict, go_on, snapshot, check_state}
use tiny_agent.Upgrade.Publish.{at, publish}
use tiny_agent.Upgrade.Checks.{
  Config, split_last, flat_name, read_at, missing_as_none, backup_path, check_root, check_identity,
  check_state_directory, read_previous, check_files, check_identity_again,
}

-- What is printed: the digest of the state, or the report of the upgrade.
pub data Printed : Type 0 where
  state_digest : String → Printed
  upgraded : Printed

module _ (digest : Bytes → String) (decode : Bytes → String) (owner uid : ℕ) where
  -- A path with no '/' has no parent to unpack.
  unfoldable pub publish_at : FilePath → Bytes → ℕ → Exec (Unit {0})
  unfolding split_last publish
  publish_at (part ∷ next ∷ rest) bytes mode =
      let (parent, name) = split_last (part ∷ next ∷ rest) in
      publish owner uid parent name bytes mode
  publish_at _ bytes mode = raise (value_error "not enough values to unpack")

  -- One backup: the one that is there, or a new one of the executable as it was read.
  unfoldable pub keep_backup : FilePath → Option Bytes → String → Option Bytes → Exec (Unit {0})
  unfolding publish_at
  keep_backup saved previous expected (some bytes) =
      guard (str_eq (digest bytes) expected) (value_error "Original executable backup differs")
  keep_backup saved none expected none = raise (key_error "")
  keep_backup saved (some bytes) expected none = do
    guard (str_eq (digest bytes) expected) (value_error "Missing original executable backup")
    publish_at saved bytes 0o600
    guard (str_eq (digest bytes) expected) (value_error "Original executable backup differs")

  unfoldable pub keep_backups :
      FilePath → List (FilePath × Bytes) → List (FilePath × String) → Exec (Unit {0})
  unfolding keep_backup read_at lookup flat_name
  keep_backups dir previous [] = pure tt
  keep_backups dir previous ((name, expected) ∷ rest) = do
    found ← reading (λ disk.
        missing_as_none digest decode owner uid
          (read_at digest decode owner uid (at dir (flat_name name)) disk))
    keep_backup (at dir (flat_name name)) (lookup name previous) expected found
    keep_backups dir previous rest

  -- One file of the overlay: it is there already, or it is published.
  unfoldable pub update_file : Bool → FilePath → Bytes → Option Bytes → Exec (Unit {0})
  unfolding publish_at
  update_file is_old name bytes none = publish_at name bytes 0o755
  update_file is_old name bytes (some current) =
      if bytes_eq current bytes
      then pure tt
      else if is_old
      then publish_at name bytes 0o755
      else raise (value_error "Existing private library differs; preserved")

  unfoldable pub update_files : List (FilePath × String) → List (FilePath × Bytes) → Exec (Unit {0})
  unfolding update_file read_at has
  update_files old [] = pure tt
  update_files old ((name, bytes) ∷ rest) = do
    current ← reading (λ disk.
        missing_as_none digest decode owner uid (read_at digest decode owner uid name disk))
    update_file (has name old) name bytes current
    update_files old rest

  -- `sorted(payloads, key=lambda name: name in OLD)`: the sort is stable and `False` comes first.
  unfoldable pub select :
      Bool → List (FilePath × String) → List (FilePath × Bytes) → List (FilePath × Bytes)
  unfolding has
  select wanted old [] = []
  select wanted old ((name, bytes) ∷ rest) =
      let more = select wanted old rest in
      if has name old
      then (if wanted then (name, bytes) ∷ more else more)
      else (if wanted then more else (name, bytes) ∷ more)

  -- From the backups to the last check.
  unfoldable pub install :
      Config
      → Bytes
      → List (FilePath × String)
      → List (FilePath × Bytes)
      → List (FilePath × Bytes)
      → Exec Printed
  unfolding keep_backups update_files check_files check_identity_again
  install config identity files previous payloads = do
    keep_backups (backup_path digest decode owner uid config identity) previous config.old
    update_files config.old (select false config.old payloads)
    update_files config.old (select true config.old payloads)
    reading (check_identity_again digest decode owner uid identity)
    reading (check_files digest decode owner uid files)
    pure upgraded

  unfoldable pub after_state :
      Config → Bytes → Manifest → List (FilePath × Bytes) → Verdict → Exec Printed
  unfolding install read_previous select
  after_state config identity manifest payloads (snapshot text) = pure (state_digest text)
  after_state config identity manifest payloads go_on = do
    previous ← reading (read_previous digest decode owner uid config.old manifest.files)
    install config identity manifest.files previous payloads

  module _
      -- `json.loads`, the members of the overlay, and `json.dumps`
      (loads : Bytes → Result Manifest) (members : Bytes → Result (List Member))
      (dumps : List Row → Bytes) where
    unfoldable pub upgrade : Config → Apk → Bool → Items → Option String → Exec Printed
    unfolding check_root check_identity check_state_directory check_state after_state open_package
    upgrade config apk locked items checked = do
      opened ← lift (open_package digest loads members config.manifest apk)
      reading (check_root digest decode owner uid locked)
      identity ← reading (check_identity digest decode owner uid)
      reading (check_state_directory digest decode owner uid identity)
      verdict ← lift (check_state digest owner dumps identity items checked)
      after_state config identity opened.0 opened.1 verdict
