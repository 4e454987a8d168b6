-- ===== src/Upgrade/Kept.antt =====
-- The backups of scripts/upgrade-dnfast-empty.py, one behind the other.
use tiny_agent.Base.{
  lookup, FilePath, ℕ, String, ◌≡◌, refl, ap, sym, ◌∙◌, subst, Option, none, some, List, [], ◌∷◌,
  ◌⊎◌, inl, inr, str_eq, eq_iff, Bytes, Result, guard-eq-ok, ok, err, assertion, value_error,
  runtime_error, key_error, type_error, os_error, file_exists, file_not_found, struct_error,
  decode_error, index_error, attribute_error, unicode_error, url_error, http_exception,
  timeout_error, incomplete_download, bridge_response_error, stop_iteration, process_error,
  name_error, system_exit,
}
use tiny_agent.Upgrade.{Root, Exec, on_result, ◌>>=◌, ◌>>◌, guard, reading}
use tiny_agent.Upgrade.Publish.{at}
use tiny_agent.Upgrade.Checks.{flat_name, read_at, missing_as_none}
use tiny_agent.Upgrade.Run.{publish_at, keep_backup, keep_backups}

-- A block that returns goes on behind its first part.
bind-returns {ℓ} :
    {A B : Type 0} {Goal : Type ℓ} (run : Exec A) (next : A → Exec B) (root : Root) {b : B}
    → ((run >>= next) root).1 ≡ ok b
    → ((a : A)
        → (run root).1 ≡ ok a
        → (next a (run root).0).1 ≡ ok b
        → (run >>= next) root ≡ next a (run root).0
        → Goal)
    → Goal
bind-returns {A} {B} {Goal} run next root {b} h f = onto (run root).0 (run root).1 h f
  where
    onto :
        (after : Root) (result : Result A)
        → (on_result after result next).1 ≡ ok b
        → ((a : A)
            → result ≡ ok a
            → (next a after).1 ≡ ok b
            → on_result after result next ≡ next a after
            → Goal)
        → Goal
    onto after (ok a) h f = f a refl h refl
    onto after (err x) h f = cc

module _ (digest : Bytes → String) (decode : Bytes → String) (owner uid : ℕ) where
  -- A backup is there with the digest of the original; or there is none, and the executable as it was read before, with that digest,
  -- was published as the backup.
  abbrev pub IsKept : FilePath → String → Option Bytes → Root → Root → Type 0
  IsKept path expected previous root after =
      ((bytes : Bytes) × (mode : ℕ) × (read_at digest decode owner uid path root.disk
          ≡ ok (bytes, mode))
        × (digest bytes ≡ expected)
        × (after ≡ root))
      ⊎ ((bytes : Bytes) × (m : String) × (read_at digest decode owner uid path root.disk
            ≡ err (file_not_found m))
          × (previous ≡ some bytes)
          × (digest bytes ≡ expected)
          × (publish_at digest decode owner uid path bytes 0o600 root ≡ (after, ok tt)))

  -- Every backup, each from where the one before was left.
  abbrev pub AreKept :
      FilePath → List (FilePath × Bytes) → List (FilePath × String) → Root → Root → Type 0
  AreKept dir previous [] root after = after ≡ root
  AreKept dir previous ((name, expected) ∷ olds) root after =
      (between : Root) × IsKept (at dir (flat_name name)) expected (lookup name previous) root
        between
      × AreKept dir previous olds between after

  found_some :
      (found : Result (Bytes × ℕ)) (bytes : Bytes)
      → missing_as_none digest decode owner uid found ≡ ok (some bytes)
      → (mode : ℕ) × (found ≡ ok (bytes, mode))
  found_some (ok (content, mode)) bytes h = (mode, cc)
  found_some (err (assertion m)) bytes h = cc
  found_some (err (value_error m)) bytes h = cc
  found_some (err (runtime_error m)) bytes h = cc
  found_some (err (key_error m)) bytes h = cc
  found_some (err (type_error m)) bytes h = cc
  found_some (err (os_error m)) bytes h = cc
  found_some (err (file_exists m)) bytes h = cc
  found_some (err (file_not_found m)) bytes h = cc
  found_some (err (struct_error m)) bytes h = cc
  found_some (err (decode_error m)) bytes h = cc
  found_some (err (index_error m)) bytes h = cc
  found_some (err (attribute_error m)) bytes h = cc
  found_some (err (unicode_error m)) bytes h = cc
  found_some (err (url_error m)) bytes h = cc
  found_some (err (http_exception m)) bytes h = cc
  found_some (err (timeout_error m)) bytes h = cc
  found_some (err (incomplete_download m)) bytes h = cc
  found_some (err (bridge_response_error m)) bytes h = cc
  found_some (err (stop_iteration m)) bytes h = cc
  found_some (err (process_error m)) bytes h = cc
  found_some (err (name_error m)) bytes h = cc
  found_some (err (system_exit m)) bytes h = cc

  found_none :
      (found : Result (Bytes × ℕ))
      → missing_as_none digest decode owner uid found ≡ ok none
      → (m : String) × (found ≡ err (file_not_found m))
  found_none (ok (content, mode)) h = cc
  found_none (err (assertion m)) h = cc
  found_none (err (value_error m)) h = cc
  found_none (err (runtime_error m)) h = cc
  found_none (err (key_error m)) h = cc
  found_none (err (type_error m)) h = cc
  found_none (err (os_error m)) h = cc
  found_none (err (file_exists m)) h = cc
  found_none (err (file_not_found m)) h = (m, refl)
  found_none (err (struct_error m)) h = cc
  found_none (err (decode_error m)) h = cc
  found_none (err (index_error m)) h = cc
  found_none (err (attribute_error m)) h = cc
  found_none (err (unicode_error m)) h = cc
  found_none (err (url_error m)) h = cc
  found_none (err (http_exception m)) h = cc
  found_none (err (timeout_error m)) h = cc
  found_none (err (incomplete_download m)) h = cc
  found_none (err (bridge_response_error m)) h = cc
  found_none (err (stop_iteration m)) h = cc
  found_none (err (process_error m)) h = cc
  found_none (err (name_error m)) h = cc
  found_none (err (system_exit m)) h = cc

  keep_backup-IsKept :
      (path : FilePath) (previous : Option Bytes) (expected : String) (found : Option Bytes)
      (root : Root)
      → missing_as_none digest decode owner uid (read_at digest decode owner uid path root.disk)
        ≡ ok found
      → (keep_backup digest decode owner uid path previous expected found root).1 ≡ ok tt
      → IsKept path expected previous root
          (keep_backup digest decode owner uid path previous expected found root).0
  unfolding keep_backup
  keep_backup-IsKept path previous expected (some bytes) root f h =
      let (mode, r) = found_some (read_at digest decode owner uid path root.disk) bytes f in
      inl (
        bytes,
        mode,
        r,
        (eq_iff (digest bytes) expected).0 (guard-eq-ok (str_eq (digest bytes) expected) _ h),
        refl,
      )
  keep_backup-IsKept path none expected none root f h = cc
  keep_backup-IsKept path (some bytes) expected none root f h =
      let save = publish_at digest decode owner uid path bytes 0o600 in
      let test = str_eq (digest bytes) expected in
      let last : Exec (Unit {0}) = guard test (value_error "Original executable backup differs") in
      let (m, r) = found_none (read_at digest decode owner uid path root.disk) f in
      bind-returns (guard test (value_error "Missing original executable backup"))
        (λ _. save >> last) root h
        λ _ g h1 e1.
          bind-returns save (λ _. last) root h1
            λ _ p h2 e2. inr (
              bytes,
              m,
              r,
              refl,
              (eq_iff (digest bytes) expected).0 (guard-eq-ok test _ g),
              ap (λ (result : Result (Unit {0})). ((save root).0, result)) p
                  ∙ ap (λ (q : Root × Result (Unit {0})). (q.0, ok tt)) (sym (e1 ∙ e2)),
            )

  pub keep_backups-AreKept :
      (dir : FilePath) (previous : List (FilePath × Bytes)) (olds : List (FilePath × String))
      (root : Root)
      → (keep_backups digest decode owner uid dir previous olds root).1 ≡ ok tt
      → AreKept dir previous olds root
          (keep_backups digest decode owner uid dir previous olds root).0
  unfolding keep_backups
  keep_backups-AreKept dir previous [] root h = refl
  keep_backups-AreKept dir previous ((name, expected) ∷ olds) root h =
      let path = at dir (flat_name name) in
      bind-returns
        (reading (λ disk.
          missing_as_none digest decode owner uid (read_at digest decode owner uid path disk)))
        _ root h
        λ found f h1 e1.
          let keep =
            keep_backup digest decode owner uid path (lookup name previous) expected found in
          bind-returns keep _ root h1 λ _ k h2 e2. (
            (keep root).0,
            keep_backup-IsKept path (lookup name previous) expected found root f k,
            subst (λ (p : Root × Result (Unit {0})). AreKept dir previous olds (keep root).0 p.0)
                (sym (e1 ∙ e2)) (keep_backups-AreKept dir previous olds (keep root).0 h2),
          )
