-- ===== src/Upgrade/Writes.antt =====
-- What the parts of scripts/upgrade-dnfast-empty.py publish.
use tiny_agent.Base.{
  lookup, has, FilePath, ℕ, String, ◌≡◌, refl, ap, sym, subst, Bool, true, false, Option, none,
  some, List, [], ◌∷◌, ◌++◌, append-nil', inl, inr, ◌⊎◌, str_eq, eq_iff, bytes_eq, Bool-cases,
  Bytes,
}
use tiny_agent.Upgrade.{Node, directory, regular, other, Root, reading}
use tiny_agent.Upgrade.Logs.{Log, Logs, Logs-same, Logs-weaken, Logs-bind, Logs-read}
use tiny_agent.Upgrade.Publish.{at, temp_of, make_parent, staged, replace, publish}
use tiny_agent.Upgrade.Checks.{split_last, flat_name, read_at, missing_as_none}
use tiny_agent.Upgrade.Run.{publish_at, keep_backup, keep_backups, update_file, update_files}

-- Nothing, or the one file.
abbrev AtMost : FilePath → Bytes → Log → Type 0
AtMost path bytes l = (l ≡ []) ⊎ (l ≡ (path, bytes) ∷ [])

at-split_last :
    (part : String) (rest : FilePath)
    → let (parent, name) = split_last (part ∷ rest) in at parent name ≡ part ∷ rest
unfolding split_last
at-split_last part [] = refl
at-split_last part (next ∷ rest) = ap (λ p. part ∷ p) (at-split_last next rest)

module _ (owner uid : ℕ) where
  replace-Logs :
      (parent : FilePath) (name : String) (bytes : Bytes) (node : Node) (root : Root)
      → Logs root (replace parent name bytes node) (AtMost (at parent name) bytes)
  replace-Logs parent name bytes node root = go (root.disk (at parent name)) refl
    where
      go :
          (there : Option Node)
          → root.disk (at parent name) ≡ there
          → Logs root (replace parent name bytes node) (AtMost (at parent name) bytes)
      go (some (directory u m)) e = record {
        log = [];
        published = unfold replace in rw (e, replace) (sym (append-nil' root.published));
        meets = inl refl;
      }
      go (some (regular u m l b)) e = record {
        log = (at parent name, bytes) ∷ [];
        published = unfold replace in rw (e, replace);
        meets = inr refl;
      }
      go (some other) e = record {
        log = (at parent name, bytes) ∷ [];
        published = unfold replace in rw (e, replace);
        meets = inr refl;
      }
      go none e = record {
        log = (at parent name, bytes) ∷ [];
        published = unfold replace in rw (e, replace);
        meets = inr refl;
      }

  publish-Logs :
      (parent : FilePath) (name : String) (bytes : Bytes) (mode : ℕ) (root : Root)
      → Logs root (publish owner uid parent name bytes mode) (AtMost (at parent name) bytes)
  unfolding publish
  publish-Logs parent name bytes mode root =
      Logs-bind root (make_parent owner uid parent) _ (λ l. l ≡ []) _
        (Logs-same root (make_parent owner uid parent) _ refl refl) (λ l e. inl e)
        (λ a l _ e.
          let made = (make_parent owner uid parent root).0 in
          Logs-weaken made _ (AtMost (at parent name) bytes) _
            (Logs-read made
              (reading (λ disk. staged owner uid mode bytes (disk (at parent (temp_of name))))) _ _
              refl (inl refl) (λ node _. replace-Logs parent name bytes node made))
            (λ more q. rw e q))

-- A part of the rows, in their order, each at most once.
pub data Picks : Log → Log → Type 0 where
  stop : {rows : Log} → Picks rows []
  skip : {row : FilePath × Bytes} {rows l : Log} → Picks rows l → Picks (row ∷ rows) l
  pick : {row : FilePath × Bytes} {rows l : Log} → Picks rows l → Picks (row ∷ rows) (row ∷ l)

-- Backups of the old executables, in their order, each with the digest of the original.
pub data Backups (digest : Bytes → String) (dir : FilePath)
    : List (FilePath × String) → Log → Type 0 where
  none_left : {olds : List (FilePath × String)} → Backups digest dir olds []
  in_place :
      {name : FilePath} {expected : String} {olds : List (FilePath × String)} {l : Log}
      → Backups digest dir olds l
      → Backups digest dir ((name, expected) ∷ olds) l
  saved :
      {name : FilePath} {expected : String} {olds : List (FilePath × String)} {l : Log}
      (bytes : Bytes)
      → digest bytes ≡ expected
      → Backups digest dir olds l
      → Backups digest dir ((name, expected) ∷ olds) ((at dir (flat_name name), bytes) ∷ l)

module _ (digest : Bytes → String) (decode : Bytes → String) (owner uid : ℕ) where
  publish_at-Logs :
      (path : FilePath) (bytes : Bytes) (mode : ℕ) (root : Root)
      → Logs root (publish_at digest decode owner uid path bytes mode) (AtMost path bytes)
  unfolding publish_at
  publish_at-Logs [] bytes mode root = Logs-same root _ _ refl (inl refl)
  publish_at-Logs (name ∷ []) bytes mode root = Logs-same root _ _ refl (inl refl)
  publish_at-Logs (part ∷ next ∷ rest) bytes mode root =
      let (parent, name) = split_last (part ∷ next ∷ rest) in
      let e : at parent name ≡ part ∷ next ∷ rest = at-split_last part (next ∷ rest) in
      Logs-weaken root _ (AtMost (at parent name) bytes) (AtMost (part ∷ next ∷ rest) bytes)
        (publish-Logs owner uid parent name bytes mode root)
        (λ l q. subst (λ p. AtMost p bytes l) e q)

  abbrev OneBackup : FilePath → String → Log → Type 0
  OneBackup path expected l =
      (l ≡ []) ⊎ ((bytes : Bytes) × (digest bytes ≡ expected) × (l ≡ (path, bytes) ∷ []))

  keep_backup-Logs :
      (path : FilePath) (previous : Option Bytes) (expected : String) (found : Option Bytes)
      (root : Root)
      → Logs root
          (keep_backup digest decode owner uid path previous expected found)
          (OneBackup path expected)
  unfolding keep_backup
  keep_backup-Logs path previous expected (some bytes) root = Logs-same root _ _ refl (inl refl)
  keep_backup-Logs path none expected none root = Logs-same root _ _ refl (inl refl)
  keep_backup-Logs path (some bytes) expected none root =
      elim (Bool-cases (str_eq (digest bytes) expected)) [
        | inr e ↦ Logs-same root _ _ (rw e refl) (inl refl)
        | inl e ↦
            let same : digest bytes ≡ expected = (eq_iff (digest bytes) expected).0 e in
            rw e (
              Logs-bind root (publish_at digest decode owner uid path bytes 0o600) _
                (AtMost path bytes) _ (publish_at-Logs path bytes 0o600 root) (one same)
                (λ a l _ q. Logs-same _ _ _ refl (rw append-nil' (one same l q))))
      ]
    where
      one : digest bytes ≡ expected → (l : Log) → AtMost path bytes l → OneBackup path expected l
      one same l (inl e) = inl e
      one same l (inr e) = inr (bytes, same, e)

  pub keep_backups-Logs :
      (dir : FilePath) (previous : List (FilePath × Bytes)) (olds : List (FilePath × String))
      (root : Root)
      → Logs root (keep_backups digest decode owner uid dir previous olds) (Backups digest dir olds)
  unfolding keep_backups
  keep_backups-Logs dir previous [] root = Logs-same root _ _ refl none_left
  keep_backups-Logs dir previous ((name, expected) ∷ olds) root =
      Logs-read root
        (reading (λ disk.
          missing_as_none digest decode owner uid
            (read_at digest decode owner uid (at dir (flat_name name)) disk)))
        _ _ refl none_left
        λ found _.
          Logs-bind root
            (keep_backup digest decode owner uid (at dir (flat_name name)) (lookup name previous)
              expected found)
            _ (OneBackup (at dir (flat_name name)) expected) _
            (keep_backup-Logs (at dir (flat_name name)) (lookup name previous) expected found root)
            (λ l q. rw (← append-nil' l) (add l [] q none_left))
            (λ a l _ q.
              let next =
                (keep_backup digest decode owner uid (at dir (flat_name name))
                  (lookup name previous) expected found root).0 in
              Logs-weaken next _ (Backups digest dir olds) _
                (keep_backups-Logs dir previous olds next) (λ more k. add l more q k))
    where
      add :
          (l more : Log)
          → OneBackup (at dir (flat_name name)) expected l
          → Backups digest dir olds more
          → Backups digest dir ((name, expected) ∷ olds) (l ++ more)
      add l more (inl e) k = rw e (in_place k)
      add l more (inr (bytes, same, e)) k = rw e (saved bytes same k)

  update_file-Logs :
      (is_old : Bool) (path : FilePath) (bytes : Bytes) (current : Option Bytes) (root : Root)
      → Logs root
          (update_file digest decode owner uid is_old path bytes current)
          (AtMost path bytes)
  unfolding update_file
  update_file-Logs is_old path bytes none root = publish_at-Logs path bytes 0o755 root
  update_file-Logs is_old path bytes (some current) root =
      elim (Bool-cases (bytes_eq current bytes)) [
        | inl e ↦ Logs-same root _ _ (rw e refl) (inl refl)
        | inr e ↦ go is_old e
      ]
    where
      go :
          (b : Bool)
          → bytes_eq current bytes ≡ false
          → Logs root
              (update_file digest decode owner uid b path bytes (some current))
              (AtMost path bytes)
      go true e = rw e (publish_at-Logs path bytes 0o755 root)
      go false e = rw e (Logs-same root _ _ refl (inl refl))

  pub update_files-Logs :
      (old : List (FilePath × String)) (rows : List (FilePath × Bytes)) (root : Root)
      → Logs root (update_files digest decode owner uid old rows) (Picks rows)
  unfolding update_files
  update_files-Logs old [] root = Logs-same root _ _ refl stop
  update_files-Logs old ((path, bytes) ∷ rows) root =
      Logs-read root
        (reading (λ disk.
          missing_as_none digest decode owner uid (read_at digest decode owner uid path disk)))
        _ _ refl stop
        λ current _.
          let one = update_file digest decode owner uid (has path old) path bytes current in
          Logs-bind root one _ (AtMost path bytes) _
            (update_file-Logs (has path old) path bytes current root)
            (λ l q. rw (← append-nil' l) (add l [] q stop))
            (λ a l _ q.
              Logs-weaken (one root).0 _ (Picks rows) _ (update_files-Logs old rows (one root).0)
                (λ more k. add l more q k))
    where
      add :
          (l more : Log)
          → AtMost path bytes l
          → Picks rows more
          → Picks ((path, bytes) ∷ rows) (l ++ more)
      add l more (inl e) k = rw e (skip k)
      add l more (inr e) k = rw e (pick k)
