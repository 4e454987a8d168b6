-- ===== src/Upgrade/Opened.antt =====
-- What it means that scripts/upgrade-dnfast-empty.py has opened its package, and found the root free with a valid identity.
use tiny_agent.Base.{
  lookup, has, FilePath, ℕ, ◌<◌, ◌*◌, String, ◌≡◌, refl, sym, ap, ◌∙◌, subst, Bool, true, false,
  not, ◌&&◌, &&_left, &&_right, Option, none, some, List, [], ◌∷◌, ◌++◌, append_assoc', append-nil',
  All, if◌then◌else◌, ltb, str_eq, eq_iff, length, every, is_hex, is_hex_text, ◌==◌, ==_iff, Bytes,
  Result, ok, err, >>=-ok, guard-ok, value_error, ok_injective, arith,
}
use tiny_agent.Upgrade.{Disk}
use tiny_agent.Upgrade.Package.{Apk, Manifest, Member, has_all, matches, unpack, open_package}
use tiny_agent.Upgrade.Checks.{mode_of, read_at, check_root, check_identity}

abbrev pub payloads_of : List Member → List (FilePath × Bytes)
payloads_of [] = []
payloads_of (m ∷ ms) = (m.name, m.content) ∷ payloads_of ms

has_all-All :
    (files : List (FilePath × String)) (payloads : List (FilePath × Bytes))
    → has_all files payloads ≡ true
    → All (λ (f : FilePath × String). has f.0 payloads ≡ true) files
unfolding has_all
has_all-All [] payloads h = tt
has_all-All ((name, expected) ∷ files) payloads h = (
  &&_left (has name payloads) (has_all files payloads) h,
  has_all-All files payloads (&&_right (has name payloads) (has_all files payloads) h),
)

module _ (digest : Bytes → String) where
  -- A file, with the digest that the manifest lists under its name.
  pub record IsListed (files : List (FilePath × String)) (m : Member) : Type 0 where
    pub is_file : m.is_file ≡ true
    pub listed : lookup m.name files ≡ some (digest m.content)

  matches-some :
      (content : Bytes) (found : Option String)
      → matches digest content found ≡ true
      → found ≡ some (digest content)
  matches-some content none h = cc
  matches-some content (some expected) h = ap some (sym ((eq_iff (digest content) expected).0 h))

  unpack-AreListed :
      (files : List (FilePath × String)) (ms : List Member)
      (before payloads : List (FilePath × Bytes))
      → unpack digest files ms before ≡ ok payloads
      → (payloads ≡ before ++ payloads_of ms) × All (IsListed files) ms
  unfolding unpack
  unpack-AreListed files [] before payloads h =
      (sym (ok_injective before payloads h) ∙ sym (append-nil' before), tt)
  unpack-AreListed files (m ∷ ms) before payloads h =
      guard-ok (m.is_file && (has m.name files && not (has m.name before))) _ _ h λ f h1.
        guard-ok (matches digest m.content (lookup m.name files)) _ _ h1 λ s h2.
          let (e, rest) =
            unpack-AreListed files ms (before ++ ((m.name, m.content) ∷ [])) payloads h2 in
          (
            e ∙ append_assoc' before ((m.name, m.content) ∷ []) (payloads_of ms),
            (
              record {
                is_file = &&_left m.is_file (has m.name files && not (has m.name before)) f;
                listed = matches-some m.content (lookup m.name files) s;
              },
              rest,
            ),
          )

  module _ (loads : Bytes → Result Manifest) (members : Bytes → Result (List Member)) where
    -- The manifest has the pinned digest, the overlay that of the manifest; its members are files with the digests of the manifest, and there is one
    -- for every file of the manifest.
    pub record IsOpened (pinned : String) (apk : Apk) (manifest : Manifest)
        (payloads : List (FilePath × Bytes)) : Type 0 where
      pub found : List Member
      pub small : apk.manifest_size < 1024 * 1024
      pub pinned_manifest : digest apk.raw ≡ pinned
      pub loaded : loads apk.raw ≡ ok manifest
      pub small_overlay : apk.overlay_size < 64 * 1024 * 1024
      pub same_overlay : digest apk.overlay ≡ manifest.overlay_sha256
      pub unpacked : members apk.overlay ≡ ok found
      pub are_listed : All (IsListed manifest.files) found
      pub all_payloads : payloads ≡ payloads_of found
      pub complete : All (λ (f : FilePath × String). has f.0 payloads ≡ true) manifest.files

    pub open_package-IsOpened :
        (pinned : String) (apk : Apk) (opened : Manifest × List (FilePath × Bytes))
        → open_package digest loads members pinned apk ≡ ok opened
        → IsOpened pinned apk opened.0 opened.1
    unfolding open_package
    open_package-IsOpened pinned apk opened h =
        guard-ok (ltb apk.manifest_size (1024 * 1024)) _ _ h λ a h1.
          guard-ok (str_eq (digest apk.raw) pinned) _ _ h1 λ b h2.
            >>=-ok (loads apk.raw) _ h2 λ manifest c h3.
              guard-ok (ltb apk.overlay_size (64 * 1024 * 1024)) _ _ h3 λ d h4.
                guard-ok (str_eq (digest apk.overlay) manifest.overlay_sha256) _ _ h4 λ e h5.
                  >>=-ok (members apk.overlay) _ h5 λ found f h6.
                    >>=-ok (unpack digest manifest.files found []) _ h6 λ payloads g h7.
                      guard-ok (has_all manifest.files payloads) _ _ h7 λ i h8.
                        let (all, listed) = unpack-AreListed manifest.files found [] payloads g in
                        subst (λ p. IsOpened pinned apk p.0 p.1)
                          (ok_injective (manifest, payloads) opened h8)
                          (record {
                            found = found;
                            small = ground (arith, a);
                            pinned_manifest = (eq_iff (digest apk.raw) pinned).0 b;
                            loaded = c;
                            small_overlay = ground (arith, d);
                            same_overlay =
                                (eq_iff (digest apk.overlay) manifest.overlay_sha256).0 e;
                            unpacked = f;
                            are_listed = listed;
                            all_payloads = all;
                            complete = has_all-All manifest.files payloads i;
                          })

  module _ (decode : Bytes → String) (owner uid : ℕ) where
    pub check_root-ok :
        (locked : Bool) (disk : Disk)
        → check_root digest decode owner uid locked disk ≡ ok tt
        → (locked ≡ false) × (mode_of (disk []) ≡ 0o700)
    unfolding check_root
    check_root-ok true disk h = cc
    check_root-ok false disk h = (refl, go (mode_of (disk []) == 0o700) refl h)
      where
        go :
            (b : Bool)
            → (mode_of (disk []) == 0o700) ≡ b
            → (if b then ok (tt {0}) else err (value_error "Root permissions differ")) ≡ ok tt
            → mode_of (disk []) ≡ 0o700
        go true e k = (==_iff (mode_of (disk [])) 0o700).0 e
        go false e k = cc

    -- The identity of the root: 64 hexadecimal digits in a private file.
    abbrev pub HasIdentity : Disk → Bytes → Type 0
    HasIdentity disk identity =
        (read_at digest decode owner uid (".tinyagent-root-id" ∷ []) disk ≡ ok (identity, 0o600))
        × (length identity ≡ 64)
        × (every is_hex identity ≡ true)

    pub check_identity-HasIdentity :
        (disk : Disk) (identity : Bytes)
        → check_identity digest decode owner uid disk ≡ ok identity
        → HasIdentity disk identity
    unfolding check_identity is_hex_text
    check_identity-HasIdentity disk identity h =
        >>=-ok (read_at digest decode owner uid (".tinyagent-root-id" ∷ []) disk) _ h λ found r h1.
          guard-ok (is_hex_text 64 found.0 && found.1 == 0o600) _ _ h1 λ t h2.
            let hex = &&_left (is_hex_text 64 found.0) (found.1 == 0o600) t in
            let private =
              (==_iff found.1 0o600).0 (&&_right (is_hex_text 64 found.0) (found.1 == 0o600) t) in
            subst (HasIdentity disk) (ok_injective found.0 identity h2) (
              r ∙ ap (λ m. ok (found.0, m)) private,
              (==_iff (length found.0) 64).0
                  (&&_left (length found.0 == 64) (every is_hex found.0) hex),
              &&_right (length found.0 == 64) (every is_hex found.0) hex,
            )
