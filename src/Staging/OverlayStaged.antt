-- ===== src/Staging/OverlayStaged.antt =====
-- What it means that scripts/stage-dnfast-runtime.py returns.
use tiny_agent.Base.{
  path_eq, ◌≡◌, refl, sym, ap, ◌∙◌, contains, ◌++◌, map, append-nil', append_assoc', String, Bool,
  true, false, not, Option, some, List, [], ◌∷◌, All, str_eq, eq_iff, Bytes, Result, ok, assertion,
  guard, guard-ok, guard-eq-ok, >>=-ok, >>-ok, ok_injective, arith,
}
use tiny_agent.Json.{Json, text, index, set_of, same_set, json_eq, text-json_eq}
use tiny_agent.Host.{Host, lift, ◌>>◌}
use tiny_agent.Host.Rules.{bind-ok, then-ok, require-ok, lift-ok}
use tiny_agent.Staging.{TapeMember, Installed, asset, is_inner}
use tiny_agent.Staging.Overlay.{
  manifest_digest, is_listed, check_regular, check_kind, check_member, check_members, check_overlay,
}
use tiny_agent.Staging.Run.{read_inputs, publish_asset, stage_overlay}
use tiny_agent.Staging.Published.{publish-same, publish-other}

abbrev name_unless : TapeMember → Bool → List String → List String
name_unless member true names = names
name_unless member false names = member.name ∷ names

-- The members that are no directories.
abbrev pub regular_names : List TapeMember → List String
regular_names [] = []
regular_names (member ∷ members) = name_unless member member.is_dir (regular_names members)

module _ (digest : Bytes → String) where
  -- The member is a file with the digest that the manifest has for its name.
  abbrev pub IsPinned : Json → TapeMember → Type 0
  IsPinned document member =
      (member.is_file ≡ true)
      × (files : Json) × (content : Bytes) × (index document "files" ≡ ok files)
      × (member.content ≡ ok content)
      × (index files member.name ≡ ok (text (digest content)))

  -- The path is inner, and what is no directory is pinned.
  abbrev pub IsChecked : Json → TapeMember → Type 0
  IsChecked document member =
      (is_inner member.name ≡ true) × (member.is_dir ≡ false → IsPinned document member)

  listed-is_file :
      (document : Json) (member : TapeMember) (b : Bool)
      → is_listed document member b ≡ ok true
      → b ≡ true
  listed-is_file document member true h = refl
  listed-is_file document member false h = cc

  check_regular-IsPinned :
      (document : Json) (member : TapeMember) (found after : List String)
      → check_regular digest document member found ≡ ok after
      → IsPinned document member × (found ++ (member.name ∷ []) ≡ after)
  check_regular-IsPinned document member found after h =
      >>=-ok (is_listed document member member.is_file) _ h λ listed l h1.
        guard-ok listed _ _ h1 λ t h2. guard-ok (not (contains member.name found)) _ _ h2 λ _ h3.
          >>=-ok member.content _ h3 λ content c h4.
            >>=-ok (index document "files") _ h4 λ files f h5.
              >>=-ok (index files member.name) _ h5 λ expected e h6.
                guard-ok (json_eq (text (digest content)) expected) _ _ h6 λ same h7. (
                  (
                    listed-is_file document member member.is_file (l ∙ ap ok t),
                    files,
                    content,
                    f,
                    c,
                    e ∙ ap ok (text-json_eq (digest content) expected same),
                  ),
                  ok_injective (found ++ (member.name ∷ [])) after h7,
                )

  check_kind-IsChecked :
      (document : Json) (member : TapeMember) (found after : List String) (b : Bool)
      → check_kind digest document member found b ≡ ok after
      → (b ≡ false → IsPinned document member) × (found ++ name_unless member b [] ≡ after)
  check_kind-IsChecked document member found after true h =
      (λ e. cc, append-nil' found ∙ ok_injective found after h)
  check_kind-IsChecked document member found after false h =
      let checked = check_regular-IsPinned document member found after h in
      (λ e. checked.0, checked.1)

  name_unless-append :
      (member : TapeMember) (b : Bool) (names : List String)
      → name_unless member b [] ++ names ≡ name_unless member b names
  name_unless-append member true names = refl
  name_unless-append member false names = refl

  -- All members are checked, and the names of those that are no directories have been added.
  check_members-All :
      (document : Json) (members : List TapeMember) (found after : List String)
      → check_members digest document members found ≡ ok after
      → All (IsChecked document) members × (found ++ regular_names members ≡ after)
  unfolding check_members
  check_members-All document [] found after h = (tt, append-nil' found ∙ ok_injective found after h)
  check_members-All document (member ∷ members) found after h =
      >>=-ok (check_member digest document member found) _ h λ between m h1.
        >>-ok (guard (is_inner member.name) (assertion member.name)) _ m λ inner k.
          let rest = check_members-All document members between after h1 in
          let checked = check_kind-IsChecked document member found between member.is_dir k in
          (
            ((guard-eq-ok (is_inner member.name) (assertion member.name) inner, checked.0), rest.0),
            ap (λ names. found ++ names)
                  (sym (name_unless-append member member.is_dir (regular_names members)))
                ∙ sym (
                    append_assoc' found (name_unless member member.is_dir [])
                      (regular_names members))
                ∙ ap (λ names. names ++ regular_names members) checked.1
                ∙ rest.1,
          )

-- The overlay that is staged: the manifest is the pinned one, the archive has its digest, the members are checked, and
-- those that are no directories are the files of the manifest; both are staged.
pub record IsStaged {W : Type 0} (digest : Bytes → String) (loads : Bytes → Result Json)
    (untar : Bytes → Result (List TapeMember)) (after : Host W) : Type 0 where
  pub manifest : Bytes
  pub archive : Bytes
  pub document : Json
  pub members : List TapeMember
  pub files : Json
  pub names : List Json
  pub pinned : digest manifest ≡ manifest_digest
  pub parsed : loads manifest ≡ ok document
  pub identified : index document "overlay_sha256" ≡ ok (text (digest archive))
  pub opened : untar archive ≡ ok members
  pub checked : All (IsChecked digest document) members
  pub listed : index document "files" ≡ ok files
  pub named : set_of files ≡ ok names
  pub complete : same_set (map text (regular_names members)) names ≡ true
  pub manifest_staged : after.files (asset "dnfast-manifest.json") ≡ some manifest
  pub archive_staged : after.files (asset "dnfast-root-overlay.tar.gz.bin") ≡ some archive

module _ (digest : Bytes → String) (loads : Bytes → Result Json)
    (untar : Bytes → Result (List TapeMember)) {W : Type 0} where
  -- What the check of the archive gives, where the rest is known.
  check_overlay-IsStaged :
      (manifest archive : Bytes) (document : Json) (after : Host W)
      → digest manifest ≡ manifest_digest
      → loads manifest ≡ ok document
      → check_overlay digest untar document archive ≡ ok tt
      → after.files (asset "dnfast-manifest.json") ≡ some manifest
      → after.files (asset "dnfast-root-overlay.tar.gz.bin") ≡ some archive
      → IsStaged digest loads untar after
  unfolding check_overlay
  check_overlay-IsStaged manifest archive document after d l h m a =
      >>=-ok (index document "overlay_sha256") _ h λ expected e h1.
        guard-ok (json_eq (text (digest archive)) expected) _ _ h1 λ same h2.
          >>=-ok (untar archive) _ h2 λ members o h3.
            >>=-ok (check_members digest document members []) _ h3 λ found f h4.
              >>=-ok (index document "files") _ h4 λ files i h5.
                >>=-ok (set_of files) _ h5 λ names s h6.
                  let all = check_members-All digest document members [] found f in
                  record {
                    manifest = manifest;
                    archive = archive;
                    document = document;
                    members = members;
                    files = files;
                    names = names;
                    pinned = d;
                    parsed = l;
                    identified = e ∙ ap ok (text-json_eq (digest archive) expected same);
                    opened = o;
                    checked = all.0;
                    listed = i;
                    named = s;
                    complete =
                        ap (λ them. same_set (map text them) names) all.1
                        ∙ guard-eq-ok (same_set (map text found) names) (assertion "") h6;
                    manifest_staged = m;
                    archive_staged = a;
                  }

  -- A staging that returns has staged the pinned manifest, and an archive with the digest that the manifest has for it; every
  -- member of the archive has a relative path that does not go up, and those that are no directories are regular files with
  -- the digests of the manifest, and are by name exactly the files that the manifest lists.
  pub stage_overlay-IsStaged :
      (installed : Option Installed) (host after : Host W)
      → stage_overlay digest loads untar installed host ≡ (ok tt, after)
      → IsStaged digest loads untar after
  unfolding stage_overlay path_eq
  stage_overlay-IsStaged installed host after h =
      bind-ok (read_inputs installed) _ host h λ inputs between _ h1.
        require-ok (str_eq (digest inputs.0) manifest_digest) _ _ between h1 λ d h2.
          lift-ok (loads inputs.0) _ between h2 λ document l h3.
            then-ok
              (lift (check_overlay digest untar document inputs.1)
                >> publish_asset "dnfast-root-overlay.tar.gz.bin" inputs.1)
              _ between h3
              λ last first h4.
                then-ok (lift (check_overlay digest untar document inputs.1)) _ between first
                  λ start checked p.
                    check_overlay-IsStaged inputs.0 inputs.1 document after
                      (ground (arith, d, eq_iff (digest inputs.0) manifest_digest)) l
                      (ap (λ (found : Result (Unit {0}) × Host W). found.0) checked)
                      (publish-same (asset "dnfast-manifest.json.part")
                        (asset "dnfast-manifest.json") inputs.0 last after h4)
                      (publish-other (asset "dnfast-manifest.json.part")
                          (asset "dnfast-manifest.json") inputs.0
                          (asset "dnfast-root-overlay.tar.gz.bin") last after refl refl h4
                        ∙ publish-same (asset "dnfast-root-overlay.tar.gz.bin.part")
                            (asset "dnfast-root-overlay.tar.gz.bin") inputs.1 start last p)
