-- ===== src/Upstream/Assets.antt =====
-- The release of which scripts/collect_upstream.py takes the asset.
use tiny_agent.Base.{
  ◌≡◌, sym, ap, ◌∙◌, subst, String, true, false, List, [], ◌∷◌, ◌++◌, Bool, not, guard-eq-ok,
  Bool-cases, inl, inr, ok, runtime_error, >>=-ok, guard-ok, >>-ok, All, arith,
}
use tiny_agent.Json.{Json, text, get, is_true, index, elements, json_eq, json_eq-text}
use tiny_agent.Upstream.Checks.{check_release, assets_named, only_asset, asset_digest, read_release}
use tiny_agent.Upstream.Digests.{ok_eq}

-- An asset of another name.
abbrev pub IsOther : String → Json → Type 0
IsOther name item =
    (found : Json) × (index item "name" ≡ ok found) × (json_eq found (text name) ≡ false)

-- Of the items just the one has the name.
pub record IsOnly (name : String) (asset : Json) (items : List Json) : Type 0 where
  pub before : List Json
  pub behind : List Json
  pub stands : items ≡ before ++ (asset ∷ behind)
  pub named : index asset "name" ≡ ok (text name)
  pub others : All (IsOther name) before
  pub more_others : All (IsOther name) behind

assets_named-none :
    (name : String) (items : List Json) → assets_named name items ≡ ok [] → All (IsOther name) items
unfolding assets_named
assets_named-none name [] h = tt
assets_named-none name (item ∷ items) h = >>=-ok (index item "name") _ h λ found n h1.
    >>=-ok (assets_named name items) _ h1 λ more m h2.
      elim (Bool-cases (json_eq found (text name))) [
        | inl e ↦ cc (rw e at h2)
        | inr e ↦ ((found, n, e), assets_named-none name items (m ∙ rw e at h2))
      ]

assets_named-IsOnly :
    (name : String) (asset : Json) (items : List Json)
    → assets_named name items ≡ ok (asset ∷ [])
    → IsOnly name asset items
unfolding assets_named
assets_named-IsOnly name asset [] h = cc
assets_named-IsOnly name asset (item ∷ items) h = >>=-ok (index item "name") _ h λ found n h1.
    >>=-ok (assets_named name items) _ h1 λ more m h2.
      elim (Bool-cases (json_eq found (text name))) [
        | inl e ↦
            let both : ok (item ∷ more) ≡ ok (asset ∷ []) = rw e at h2 in
            let same : item ≡ asset = cc in
            let nothing : more ≡ [] = cc in
            record {
              before = [];
              behind = items;
              stands = ap (λ x. x ∷ items) same;
              named = ap (λ x. index x "name") (sym same) ∙ n ∙ ap ok (json_eq-text found name e);
              others = tt;
              more_others = assets_named-none name items (m ∙ ap ok nothing);
            }
        | inr e ↦
            let rest : IsOnly name asset items =
              assets_named-IsOnly name asset items (m ∙ rw e at h2) in
            record {
              before = item ∷ rest.before;
              behind = rest.behind;
              stands = ap (λ xs. item ∷ xs) rest.stands;
              named = rest.named;
              others = ((found, n, e), rest.others);
              more_others = rest.more_others;
            }
      ]

-- The release is the expected one, and the archive that of its one asset of the name.
pub record IsAsset (name url : String) (release asset : Json) (hex : String) : Type 0 where
  pub draft : Json
  pub prerelease : Json
  pub assets : Json
  pub items : List Json
  pub tag : get release "tag_name" ≡ ok (text "v1.18.29")
  pub has_draft : get release "draft" ≡ ok draft
  pub no_draft : is_true draft ≡ false
  pub has_prerelease : get release "prerelease" ≡ ok prerelease
  pub no_prerelease : is_true prerelease ≡ false
  pub listed : index release "assets" ≡ ok assets
  pub all_items : elements assets ≡ ok items
  pub only : IsOnly name asset items
  pub address : index asset "browser_download_url" ≡ ok (text url)
  pub digits : asset_digest asset ≡ ok hex

only_asset-eq :
    (named : List Json) (asset : Json) → only_asset named ≡ ok asset → named ≡ asset ∷ []
only_asset-eq [] asset h = cc
only_asset-eq (a ∷ []) asset h = cc
only_asset-eq (a ∷ (b ∷ rest)) asset h = cc

not-false : (b : Bool) → not b ≡ true → b ≡ false
not-false b h = ground arith

check_release-ok :
    (release : Json)
    → check_release release ≡ ok tt
    → (draft : Json) × (prerelease : Json) × (get release "tag_name" ≡ ok (text "v1.18.29"))
      × (get release "draft" ≡ ok draft)
      × (is_true draft ≡ false)
      × (get release "prerelease" ≡ ok prerelease)
      × (is_true prerelease ≡ false)
unfolding check_release
check_release-ok release h = >>=-ok (get release "tag_name") _ h λ tag t h1.
    guard-ok (json_eq tag (text "v1.18.29")) _ _ h1 λ e h2.
      >>=-ok (get release "draft") _ h2 λ draft d h3. guard-ok (not (is_true draft)) _ _ h3 λ f h4.
        >>=-ok (get release "prerelease") _ h4 λ prerelease p h5. (
          draft,
          prerelease,
          t ∙ ap ok (json_eq-text tag "v1.18.29" e),
          d,
          not-false _ f,
          p,
          not-false _ (guard-eq-ok (not (is_true prerelease)) _ h5),
        )

pub read_release-IsAsset :
    (name url : String) (release : Json) (found : Json × String)
    → read_release name url release ≡ ok found
    → IsAsset name url release found.0 found.1
unfolding read_release
read_release-IsAsset name url release found h = >>-ok (check_release release) _ h λ c h1.
    >>=-ok (index release "assets") _ h1 λ assets i h2. >>=-ok (elements assets) _ h2 λ items j h3.
      >>=-ok (assets_named name items) _ h3 λ named n h4.
        >>=-ok (only_asset named) _ h4 λ asset o h5. >>=-ok (asset_digest asset) _ h5 λ hex d h6.
          >>=-ok (index asset "browser_download_url") _ h6 λ address a h7.
            guard-ok (json_eq address (text url)) (runtime_error "Unexpected OpenCode asset URL") _
              h7
              λ u h8. >>=-ok (index release "tag_name") _ h8 λ tag _ h9.
                >>=-ok (index release "id") _ h9 λ id _ h10.
                  >>=-ok (index release "published_at") _ h10 λ published _ h11.
                    >>=-ok (index asset "id") _ h11 λ asset_id _ h12.
                      subst (λ p. IsAsset name url release p.0 p.1)
                        (sym (ok_eq (asset, hex) found h12))
                        (let (draft, prerelease, t, e, f, p, q) = check_release-ok release c in
                          record {
                            draft = draft;
                            prerelease = prerelease;
                            assets = assets;
                            items = items;
                            tag = t;
                            has_draft = e;
                            no_draft = f;
                            has_prerelease = p;
                            no_prerelease = q;
                            listed = i;
                            all_items = j;
                            only =
                                assets_named-IsOnly name asset items
                                  (n ∙ ap ok (only_asset-eq named asset o));
                            address = a ∙ ap ok (json_eq-text address url u);
                            digits = d;
                          })
