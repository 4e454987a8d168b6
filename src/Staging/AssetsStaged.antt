-- ===== src/Staging/AssetsStaged.antt =====
-- What it means that scripts/stage-runtime-assets.py returns.
use tiny_agent.Base.{
  FilePath, path_eq, leb, ◌*◌, ◌≡◌, refl, sym, ap, ◌∙◌, subst, String, ◌<>◌, false, Option, none,
  some, List, [], ◌∷◌, All, str_eq, eq_iff, Bytes, Result, ok, value_error,
}
use tiny_agent.Host.{Host, Files, ◌>>◌, put, require, replace, for_each}
use tiny_agent.Host.Rules.{bind-ok, then-ok, require-ok, lift-ok, read-ok, put-same, put-other}
use tiny_agent.Packaged.Pins.{fedora, opencode, pins}
use tiny_agent.Staging.{Installed, asset}
use tiny_agent.Staging.Published.{replace-files}
use tiny_agent.Staging.Run.{unlink, partial_of, source_of, copy_input, stage_asset, stage_assets}

-- The paths of a round are apart.
abbrev AreApart : String → Type 0
AreApart name =
    (path_eq (asset name) (asset (name <> ".bin")) ≡ false)
    × (path_eq (asset name) (partial_of name) ≡ false)
    × (path_eq (asset (name <> ".bin")) (partial_of name) ≡ false)

-- A path that a round does not touch.
abbrev IsOther : String → FilePath → Type 0
IsOther name other =
    (path_eq (asset name) other ≡ false)
    × (path_eq (asset (name <> ".bin")) other ≡ false)
    × (path_eq (partial_of name) other ≡ false)

module _ {W : Type 0} (artifacts : FilePath) (archive : Option FilePath) where
  -- A copy changes only the partial file.
  copy_input-other :
      (given : Option Installed) (name : String) (other : FilePath) (host after : Host W)
      → path_eq (partial_of name) other ≡ false
      → copy_input given artifacts archive name host ≡ (ok tt, after)
      → after.files other ≡ host.files other
  copy_input-other (some package_) name other host after e h =
      lift-ok (package_.size ("assets/" <> (name <> ".bin"))) _ host h λ size _ h1.
        require-ok (leb size (256 * 1024 * 1024)) _ _ host h1 λ _ h2.
          lift-ok (package_.copy ("assets/" <> (name <> ".bin"))) _ host h2 λ copied _ h3.
            ap (λ (p : Result (Unit {0}) × Host W). p.1.files other) (sym h3)
            ∙ put-other (partial_of name) other (some copied.0) host.files e
  copy_input-other none name other host after e h =
      read-ok (source_of artifacts archive name) _ host h λ content _ h1.
        ap (λ (p : Result (Unit {0}) × Host W). p.1.files other) (sym h1)
        ∙ put-other (partial_of name) other (some content) host.files e

module _ (digest : Bytes → String) {W : Type 0} where
  -- The archive is staged with its digest, and neither a partial file nor one under the plain name is there.
  abbrev pub IsAsset : String × String → Host W → Type 0
  IsAsset (name, expected) after =
      (content : Bytes) × (digest content ≡ expected)
      × (after.files (asset (name <> ".bin")) ≡ some content)
      × (after.files (asset name) ≡ none)
      × (after.files (partial_of name) ≡ none)

  abbrev IsKept : FilePath → Host W → Host W → Type 0
  IsKept other host after = after.files other ≡ host.files other

  module _ (installed : Option Installed) (artifacts : FilePath) (archive : Option FilePath) where
    stage_asset-IsAsset :
        (name expected : String) (host after : Host W)
        → AreApart name
        → stage_asset digest installed artifacts archive (name, expected) host ≡ (ok tt, after)
        → IsAsset (name, expected) after
          × ((other : FilePath) → IsOther name other → IsKept other host after)
    unfolding stage_asset
    stage_asset-IsAsset name expected host after apart h =
        then-ok (copy_input installed artifacts archive name) _ host h λ between c h1.
          read-ok (partial_of name) _ between h1 λ content r h2.
            then-ok
              (require (str_eq (digest content) expected)
                  (value_error ("Runtime archive digest mismatch: " <> name))
                >> replace (partial_of name) (asset (name <> ".bin")))
              (unlink (asset name)) between h2
              λ last p h3.
                require-ok (str_eq (digest content) expected) _
                  (replace (partial_of name) (asset (name <> ".bin"))) between p
                  λ d p1.
                    let moved = put (partial_of name) none between.files in
                    let stored = put (asset (name <> ".bin")) (some content) moved in
                    let files : after.files ≡ put (asset name) none stored =
                      ap (λ (p : Result (Unit {0}) × Host W). p.1.files) (sym h3)
                      ∙ ap (λ files. put (asset name) none files)
                          (replace-files (partial_of name) (asset (name <> ".bin")) content between
                            last r p1) in
                    let at = λ (path : FilePath). ap (λ (f : Files). f path) files in
                    (
                      (
                        content,
                        (eq_iff (digest content) expected).0 d,
                        at (asset (name <> ".bin"))
                            ∙ put-other (asset name) (asset (name <> ".bin")) none stored apart.0
                            ∙ put-same (asset (name <> ".bin")) (some content) moved,
                        at (asset name) ∙ put-same (asset name) none stored,
                        at (partial_of name)
                            ∙ put-other (asset name) (partial_of name) none stored apart.1
                            ∙ put-other (asset (name <> ".bin")) (partial_of name) (some content)
                                moved apart.2
                            ∙ put-same (partial_of name) none between.files,
                      ),
                      λ other e.
                          at other
                          ∙ put-other (asset name) other none stored e.0
                          ∙ put-other (asset (name <> ".bin")) other (some content) moved e.1
                          ∙ put-other (partial_of name) other none between.files e.2
                          ∙ copy_input-other artifacts archive installed name other host between e.2
                              c,
                    )

    IsAsset-IsKept :
        (name expected : String) (host after : Host W)
        → IsAsset (name, expected) host
        → IsKept (asset (name <> ".bin")) host after
        → IsKept (asset name) host after
        → IsKept (partial_of name) host after
        → IsAsset (name, expected) after
    IsAsset-IsKept name expected host after (content, d, b, n, p) kb kn kp =
        (content, d, kb ∙ b, kn ∙ n, kp ∙ p)

    -- A staging that returns has staged both archives with their pinned digests, and neither a partial file nor one under
    -- the name without the ending is left.
    pub stage_assets-All :
        (rounds : List (Unit {0})) (host after : Host W)
        → stage_assets digest installed artifacts archive host ≡ (ok rounds, after)
        → All (λ pin. IsAsset pin after) pins
    unfolding stage_assets for_each path_eq
    stage_assets-All rounds host after h =
        bind-ok (stage_asset digest installed artifacts archive fedora) _ host h λ _ between f h1.
          bind-ok (for_each (stage_asset digest installed artifacts archive) (opencode ∷ [])) _
            between h1
            λ _ last g h2.
              bind-ok (stage_asset digest installed artifacts archive opencode) _ between g
                λ _ final o g1.
                  let first =
                    stage_asset-IsAsset fedora.0 fedora.1 host between (refl, refl, refl) f in
                  let second =
                    stage_asset-IsAsset opencode.0 opencode.1 between final (refl, refl, refl) o in
                  let same : final ≡ after =
                    ap (λ (p : Result (List (Unit {0})) × Host W). p.1) (g1)
                    ∙ ap (λ (p : Result (List (Unit {0})) × Host W). p.1) h2 in
                  subst (λ end. All (λ pin. IsAsset pin end) pins) same
                    (
                      IsAsset-IsKept fedora.0 fedora.1 between final first.0
                          (second.1 (asset (fedora.0 <> ".bin")) (refl, refl, refl))
                          (second.1 (asset fedora.0) (refl, refl, refl))
                          (second.1 (partial_of fedora.0) (refl, refl, refl)),
                      (second.0, tt),
                    )
