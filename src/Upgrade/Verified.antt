-- ===== src/Upgrade/Verified.antt =====
-- What a finished upgrade of scripts/upgrade-dnfast-empty.py has checked.
use tiny_agent.Base.{
  FilePath, ℕ, String, ◌≡◌, refl, ap, ◌∙◌, ◌≢◌, Bool, true, false, Option, none, some, List, [],
  ◌∷◌, ◌++◌, inl, inr, ◌⊎◌, str_eq, eq_iff, bytes_eq, bytes_eq→eq, All, Bytes, Result, ok, err,
  value_error, arith, >>=-eq-ok, guard->>-eq-ok,
}
use tiny_agent.Upgrade.{Disk, Root, Exec, on_result, ◌>>=◌, reading, lift}
use tiny_agent.Upgrade.Package.{Apk, Manifest, Member, open_package}
use tiny_agent.Upgrade.Opened.{
  IsOpened, open_package-IsOpened, check_root-ok, HasIdentity, check_identity-HasIdentity,
}
use tiny_agent.Upgrade.State.{
  Items, end, item, walk_items, Row, Verdict, go_on, snapshot, check_state,
}
use tiny_agent.Upgrade.Checks.{
  Config, mode_of, read_at, backup_path, check_root, check_identity, check_state_directory,
  read_previous, check_files, check_identity_again,
}
use tiny_agent.Upgrade.Run.{
  Printed, upgraded, keep_backups, update_files, select, install, after_state, upgrade,
}

-- From `root` on, a run that returns a value has `Q` of it and of the root it leaves.
abbrev Returns {ℓ κ} : {A : Type ℓ} → Exec A → Root → (A → Root → Type κ) → Type (ℓ ⊔ κ)
Returns run root Q = (a : _) → (run root).1 ≡ ok a → Q a (run root).0

module _ {ℓ ℓ' κ} {A : Type ℓ} {B : Type ℓ'} (run : Exec A) (next : A → Exec B) (root : Root)
    (Q : B → Root → Type κ) where
  Returns-bind :
      ((a : A) → (run root).1 ≡ ok a → Returns (next a) (run root).0 Q)
      → Returns (run >>= next) root Q
  Returns-bind go = onto (run root).0 (run root).1 go
    where
      onto :
          (after : Root) (result : Result A)
          → ((a : A) → result ≡ ok a → Returns (next a) after Q)
          → (b : B) → (on_result after result next).1 ≡ ok b
          → Q b (on_result after result next).0
      onto after (ok a) f b h = f a refl b h
      onto after (err x) f b h = cc

module _ (digest : Bytes → String) (decode : Bytes → String) (owner uid : ℕ) where
  -- The file at the path of a row reads back with the digest of the row.
  pub record ReadsBack (disk : Disk) (row : FilePath × String) : Type 0 where
    pub bytes : Bytes
    pub mode : ℕ
    pub found : read_at digest decode owner uid row.0 disk ≡ ok (bytes, mode)
    pub same_digest : digest bytes ≡ row.1

  check_files-ReadsBack :
      (files : List (FilePath × String)) (disk : Disk)
      → check_files digest decode owner uid files disk ≡ ok tt
      → All (ReadsBack disk) files
  unfolding check_files
  check_files-ReadsBack [] disk h = tt
  check_files-ReadsBack ((name, expected) ∷ rest) disk h =
      let (found, e, h1) = >>=-eq-ok (read_at digest decode owner uid name disk) _ h in
      let (same, h2) =
        guard->>-eq-ok (str_eq (digest found.0) expected) (value_error "Published upgrade differs")
          (check_files digest decode owner uid rest disk) h1 in
      (
        record {
          bytes = found.0;
          mode = found.1;
          found = e;
          same_digest = (eq_iff (digest found.0) expected).0 same;
        },
        check_files-ReadsBack rest disk h2,
      )

  check_identity_again-ReadsBack :
      (identity : Bytes) (disk : Disk)
      → check_identity_again digest decode owner uid identity disk ≡ ok tt
      → (mode : ℕ) × (read_at digest decode owner uid (".tinyagent-root-id" ∷ []) disk
          ≡ ok (identity, mode))
  unfolding check_identity_again
  check_identity_again-ReadsBack identity disk h =
      let (found, e, h1) =
        >>=-eq-ok (read_at digest decode owner uid (".tinyagent-root-id" ∷ []) disk) _ h in
      let (same, h2) =
        guard->>-eq-ok (bytes_eq found.0 identity) (value_error "Root ID changed during upgrade")
          (ok tt) h1 in
      (found.1, e ∙ ap (λ b. ok (b, found.1)) (bytes_eq→eq found.0 identity same))

  -- The disk that a finished upgrade leaves.
  pub record IsInstalled (identity : Bytes) (files : List (FilePath × String)) (disk : Disk)
      : Type 0 where
    pub root_id :
        (mode : ℕ) × (read_at digest decode owner uid (".tinyagent-root-id" ∷ []) disk
          ≡ ok (identity, mode))
    pub all_files : All (ReadsBack disk) files

  install-IsInstalled :
      (config : Config) (identity : Bytes) (files : List (FilePath × String))
      (previous payloads : List (FilePath × Bytes)) (root : Root)
      → Returns
          (install digest decode owner uid config identity files previous payloads)
          root
          (λ p after. (p ≡ upgraded) × IsInstalled identity files after.disk)
  unfolding install
  install-IsInstalled config identity files previous payloads root =
      Returns-bind
        (keep_backups digest decode owner uid (backup_path digest decode owner uid config identity)
          previous config.old)
        _ root Q
        λ _ _.
          Returns-bind
            (update_files digest decode owner uid config.old
              (select digest decode owner uid false config.old payloads))
            _ _ Q
            λ _ _.
              Returns-bind
                (update_files digest decode owner uid config.old
                  (select digest decode owner uid true config.old payloads))
                _ _ Q
                λ _ _.
                  Returns-bind (reading (check_identity_again digest decode owner uid identity)) _ _
                    Q
                    λ _ e.
                      Returns-bind (reading (check_files digest decode owner uid files)) _ _ Q
                        λ _ f p h. (
                          cc,
                          record {
                            root_id = check_identity_again-ReadsBack identity _ e;
                            all_files = check_files-ReadsBack files _ f;
                          },
                        )
    where
      Q : Printed → Root → Type 0
      Q p after = (p ≡ upgraded) × IsInstalled identity files after.disk

  module _ (loads : Bytes → Result Manifest) (members : Bytes → Result (List Member))
      (dumps : List Row → Bytes) where
    -- The package state that an upgrade goes on with: there is none, or it has the digest that
    -- was asked for.
    pub data IsExpected (identity : Bytes) (items : Items) : Option String → Type 0 where
      no_state : items ≡ end → IsExpected identity items none
      validated :
          {asked : String} (rows : List Row)
          → walk_items digest owner "" items ≡ ok rows
          → asked ≡ digest (identity ++ dumps rows)
          → IsExpected identity items (some asked)

    check_state-IsExpected :
        (identity : Bytes) (items : Items) (checked : Option String)
        → check_state digest owner dumps identity items checked ≡ ok go_on
        → IsExpected identity items checked
    unfolding check_state
    check_state-IsExpected identity end none h = no_state refl
    check_state-IsExpected identity (item name entry rest) none h = cc
    check_state-IsExpected identity items (some asked) h =
        let (rows, e, h1) = >>=-eq-ok (walk_items digest owner "" items) _ h in
        validated rows e (ground (arith, eq_iff asked (digest (identity ++ dumps rows))))

    -- What has held from the start of an upgrade to its report.
    pub record IsUpgraded (config : Config) (apk : Apk) (locked : Bool) (items : Items)
        (checked : Option String) (root after : Root) : Type 0 where
      pub manifest : Manifest
      pub payloads : List (FilePath × Bytes)
      pub identity : Bytes
      pub opened : IsOpened digest loads members config.manifest apk manifest payloads
      pub unlocked : locked ≡ false
      pub private_root : mode_of (root.disk []) ≡ 0o700
      pub had_id : HasIdentity digest decode owner uid root.disk identity
      pub expected : IsExpected identity items checked
      pub installed : IsInstalled identity manifest.files after.disk

    -- An upgrade that returns has either printed the digest of the package state and left the root
    -- as it was, or it has reported success, and then: the package's manifest has the pinned digest, and the overlay that of the
    -- manifest, the members of the overlay are files with the digests of the manifest, and each file of the manifest is among
    -- them; nobody held the lock on the root, which was private, the root ID was 64 hexadecimal digits in a private file, the package state was none or the
    -- validated one, and on the disk as it is at the end the root ID is the same and every file of
    -- the manifest reads back with its digest.
    pub upgrade-IsUpgraded :
        (config : Config) (apk : Apk) (locked : Bool) (items : Items) (checked : Option String)
        (root : Root) (p : Printed)
        → (upgrade digest decode owner uid loads members dumps config apk locked items checked
            root).1
          ≡ ok p
        → (let after =
              (upgrade digest decode owner uid loads members dumps config apk locked items checked
                root).0 in
            ((p ≢ upgraded) × (after ≡ root))
            ⊎ ((p ≡ upgraded) × IsUpgraded config apk locked items checked root after))
    unfolding upgrade
    upgrade-IsUpgraded config apk locked items checked root =
        Returns-bind (lift (open_package digest loads members config.manifest apk)) _ root Q
          λ opened o.
            Returns-bind (reading (check_root digest decode owner uid locked)) _ root Q λ _ r.
              Returns-bind (reading (check_identity digest decode owner uid)) _ root Q λ identity i.
                Returns-bind (reading (check_state_directory digest decode owner uid identity)) _
                  root Q
                  λ _ d.
                    Returns-bind (lift (check_state digest owner dumps identity items checked)) _
                      root Q λ verdict v. rest opened identity verdict o r i v
      where
        Q : Printed → Root → Type 0
        Q p after =
            ((p ≢ upgraded) × (after ≡ root))
            ⊎ ((p ≡ upgraded) × IsUpgraded config apk locked items checked root after)

        rest :
            (opened : Manifest × List (FilePath × Bytes)) (identity : Bytes) (verdict : Verdict)
            → open_package digest loads members config.manifest apk ≡ ok opened
            → check_root digest decode owner uid locked root.disk ≡ ok tt
            → check_identity digest decode owner uid root.disk ≡ ok identity
            → check_state digest owner dumps identity items checked ≡ ok verdict
            → Returns
                (after_state digest decode owner uid config identity opened.0 opened.1 verdict)
                root
                Q
        rest opened identity (snapshot text) o r i v = λ p h. inl (cc, refl)
        rest opened identity go_on o r i v =
            Returns-bind (reading (read_previous digest decode owner uid config.old opened.0.files))
              _ root Q
              λ previous _ p h.
                let (e, done) =
                  install-IsInstalled config identity opened.0.files previous opened.1 root p h in
                inr (
                  e,
                  record {
                    manifest = opened.0;
                    payloads = opened.1;
                    identity = identity;
                    opened =
                        open_package-IsOpened digest loads members config.manifest apk opened o;
                    unlocked = (check_root-ok digest decode owner uid locked root.disk r).0;
                    private_root = (check_root-ok digest decode owner uid locked root.disk r).1;
                    had_id =
                        check_identity-HasIdentity digest decode owner uid root.disk identity i;
                    expected = check_state-IsExpected identity items checked v;
                    installed = done;
                  },
                )
