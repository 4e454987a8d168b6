-- ===== src/Packaged/Covered.antt =====
-- What the checks of the notices in scripts/check-packaged-runtime.py establish.
use tiny_agent.Base.{
  ◌≡◌, refl, sym, ap, ◌∙◌, String, Bool, true, false, not, ◌⊎◌, inl, inr, List, [], ◌∷◌, All,
  All-map, Bytes, bytes_eq→eq, ok, assertion, type_error, guard, guard-eq-ok, ◌>>=◌, ◌>>◌, >>=-ok,
  >>-ok, guard-ok, traverse, check_all, check_all-All, ok_injective, arith,
}
use tiny_agent.Json.{
  Json, text, joined, index, elements, is_true, contains_json, is_hashable, all_hashable,
  text-json_eq,
}
use tiny_agent.Packaged.{Build, read_json, check_same, check_digest, check_indexed, check_named}
use tiny_agent.Packaged.Notices.{
  licenses, lacks_notice, lacks_source, is_uncovered, add_uncovered, uncovered, all_covered,
  check_rpm_notice, check_file_notice, check_package, check_packages,
}

module _ (build : Build) where
  -- The package has under the name the content with this digest.
  abbrev pub IsPinned : String → Json → Type 0
  IsPinned name expected =
      (content : Bytes) × (build.archive.read name ≡ ok content)
      × (expected ≡ text (build.digest content))

  -- The package has under the name the bytes of the file below the root.
  abbrev pub IsCopy : String → String → Type 0
  IsCopy name source =
      (content : Bytes) × (build.archive.read name ≡ ok content)
      × (build.read_root source ≡ ok content)

  pub check_digest-IsPinned :
      (name : String) (expected : Json)
      → check_digest build name expected ≡ ok tt
      → IsPinned name expected
  unfolding check_digest
  check_digest-IsPinned name expected h =
      >>=-ok (build.archive.read name) _ h
        λ content r h1. (content, r, text-json_eq _ expected (guard-eq-ok _ (assertion name) h1))

  pub check_same-IsCopy :
      (name source : String) → check_same build name source ≡ ok tt → IsCopy name source
  unfolding check_same
  check_same-IsCopy name source h = >>=-ok (build.archive.read name) _ h λ packaged r h1.
      >>=-ok (build.read_root source) _ h1 λ original o h2. (
        packaged,
        r,
        o ∙ ap ok (sym (bytes_eq→eq packaged original (guard-eq-ok _ (assertion name) h2))),
      )

  -- The file that a notice names is in the package, with the digest of the notice.
  abbrev pub IsNotice : String → String → Json → Type 0
  IsNotice prefix key notice =
      (name : Json) × (expected : Json) × (path : String) × (index notice key ≡ ok name)
      × (joined prefix name ≡ ok path)
      × (index notice "sha256" ≡ ok expected)
      × IsPinned path expected

  check_named-IsNotice :
      (prefix key : String) (notice : Json)
      → check_named build prefix key "sha256" notice ≡ ok tt
      → IsNotice prefix key notice
  unfolding check_named check_indexed
  check_named-IsNotice prefix key notice h = >>=-ok (index notice key) _ h λ name n h1.
      >>=-ok (joined prefix name) _ h1 λ path p h2.
        >>=-ok (build.archive.read path) _ h2 λ content r h3.
          >>=-ok (index notice "sha256") _ h3 λ expected e h4. (
            name,
            expected,
            path,
            n,
            p,
            e,
            (content, r, text-json_eq _ expected (guard-eq-ok _ (assertion path) h4)),
          )

  check_notices-All :
      (prefix key : String) (notices : List Json)
      → check_all (check_named build prefix key "sha256") notices ≡ ok tt
      → All (IsNotice prefix key) notices
  check_notices-All prefix key notices h =
      All-map _ _ (check_named-IsNotice prefix key) notices
        (check_all-All (check_named build prefix key "sha256") notices h)

  -- Every notice of a package is in the APK.
  abbrev pub IsNoticed : Json → Type 0
  IsNoticed item =
      (found : Json) × (notices : List Json) × (index item "notices" ≡ ok found)
      × (elements found ≡ ok notices)
      × All (IsNotice "assets/licenses/dnfast-rpm/" "member") notices

  check_package-IsNoticed : (item : Json) → check_package build item ≡ ok tt → IsNoticed item
  unfolding check_package check_rpm_notice
  check_package-IsNoticed item h = >>=-ok (index item "notices") _ h λ found f h1.
      >>=-ok (elements found) _ h1 λ notices n h2.
        (found, notices, f, n, check_notices-All "assets/licenses/dnfast-rpm/" "member" notices h2)

-- A package has all of its own notices, and some, or its source is among those with a supplemental notice.
abbrev pub IsCovered : List Json → Json → Type 0
IsCovered supplemental item =
    ((missing : Json) × (notices : Json) × (index item "missing" ≡ ok missing)
      × (is_true missing ≡ false)
      × (index item "notices" ≡ ok notices)
      × (is_true notices ≡ true))
    ⊎ ((source : Json) × (index item "source_rpm" ≡ ok source)
        × (contains_json source supplemental ≡ true))

not-eq : (b c : Bool) → ok (not b) ≡ ok c → b ≡ not c
not-eq b c h = ground (arith, ok_injective (not b) c h)

lacks_source-IsCovered :
    (supplemental : List Json) (item : Json)
    → lacks_source supplemental item true ≡ ok false
    → IsCovered supplemental item
lacks_source-IsCovered supplemental item h = >>=-ok (index item "source_rpm") _ h λ source s h1.
    guard-ok (is_hashable source) (type_error "unhashable type") _ h1
      λ _ h2. inr (source, s, not-eq _ false h2)

is_uncovered-IsCovered :
    (supplemental : List Json) (item : Json)
    → is_uncovered supplemental item ≡ ok false
    → IsCovered supplemental item
unfolding is_uncovered
is_uncovered-IsCovered supplemental item h =
    >>=-ok (index item "missing") _ h λ missing m h1. go missing m (is_true missing) refl h1
  where
    lacking-IsCovered :
        (missing : Json) (notices : Json) (b : Bool)
        → index item "missing" ≡ ok missing
        → is_true missing ≡ false
        → index item "notices" ≡ ok notices
        → ok (not (is_true notices)) ≡ ok b
        → lacks_source supplemental item b ≡ ok false
        → IsCovered supplemental item
    lacking-IsCovered missing notices true m t n b k = lacks_source-IsCovered supplemental item k
    lacking-IsCovered missing notices false m t n b k =
        inl (missing, notices, m, t, n, not-eq (is_true notices) false b)

    go :
        (missing : Json)
        → index item "missing" ≡ ok missing
        → (t : Bool) → is_true missing ≡ t
        → (lacks_notice item t >>= lacks_source supplemental item) ≡ ok false
        → IsCovered supplemental item
    go missing m true t k = lacks_source-IsCovered supplemental item k
    go missing m false t k = >>=-ok (lacks_notice item false) _ k λ lacking l k1.
        >>=-ok (index item "notices") _ l
          λ notices n l1. lacking-IsCovered missing notices lacking m t n l1 k1

cons-ne-nil : (v : Json) (vs : List Json) → ok (v ∷ vs) ≡ ok [] → ⊥
cons-ne-nil v vs h = cc

uncovered-IsCovered :
    (supplemental items : List Json)
    → uncovered supplemental items ≡ ok []
    → All (IsCovered supplemental) items
unfolding uncovered
uncovered-IsCovered supplemental [] h = tt
uncovered-IsCovered supplemental (item ∷ items) h =
    >>=-ok (is_uncovered supplemental item) _ h
      λ lacking l h1. go lacking l h1 (uncovered-IsCovered supplemental items)
  where
    go :
        (lacking : Bool)
        → is_uncovered supplemental item ≡ ok lacking
        → add_uncovered item (uncovered supplemental items) lacking ≡ ok []
        → (uncovered supplemental items ≡ ok [] → All (IsCovered supplemental) items)
        → All (IsCovered supplemental) (item ∷ items)
    go true l k f = >>=-ok (index item "package") _ k λ name _ k1.
        >>=-ok (uncovered supplemental items) _ k1 λ more _ k2. absurd (cons-ne-nil name more k2)
    go false l k f = (is_uncovered-IsCovered supplemental item l, f k)

-- What a file below the root holds.
abbrev pub IsRead : Build → String → Json → Type 0
IsRead build name parsed =
    (content : Bytes) × (build.read_root name ≡ ok content) × (build.loads content ≡ ok parsed)

read_json-IsRead :
    (build : Build) (name : String) (parsed : Json)
    → read_json build name ≡ ok parsed
    → IsRead build name parsed
unfolding read_json
read_json-IsRead build name parsed h =
    >>=-ok (build.read_root name) _ h λ content r h1. (content, r, h1)

-- The inventory of the packages, as the files below the root list them: each has its notices in the APK and is covered.
pub record IsInventory (build : Build) : Type 0 where
  pub document : Json
  pub found : Json
  pub source_notices : Json
  pub packages : List Json
  pub notices : List Json
  pub supplemental : List Json
  pub read : IsRead build "runtime/dnfast-rpm-notices.json" document
  pub listed : index document "packages" ≡ ok found
  pub items : elements found ≡ ok packages
  pub notices_read : IsRead build "runtime/dnfast-source-notices.json" source_notices
  pub all_notices : elements source_notices ≡ ok notices
  pub noticed : All (IsNoticed build) packages
  pub noted : All (IsNotice build licenses "file") notices
  pub named : traverse (λ notice. index notice "source_rpm") notices ≡ ok supplemental
  pub covered : All (IsCovered supplemental) packages

all_covered-eq : (vs : List Json) → all_covered vs ≡ true → vs ≡ []
all_covered-eq [] h = refl
all_covered-eq (v ∷ vs) h = cc

pub check_packages-IsInventory : (build : Build) → check_packages build ≡ ok tt → IsInventory build
unfolding check_packages check_file_notice
check_packages-IsInventory build h =
    >>=-ok (read_json build "runtime/dnfast-rpm-notices.json") _ h λ document d h1.
      >>=-ok (index document "packages") _ h1 λ packages p h2.
        >>=-ok (elements packages) _ h2 λ items i h3.
          >>-ok (check_all (check_package build) items) _ h3 λ c h4.
            >>=-ok (read_json build "runtime/dnfast-source-notices.json") _ h4 λ found g h5.
              >>=-ok (elements found) _ h5 λ notices n h6.
                >>-ok (check_all (check_file_notice build) notices) _ h6 λ f h7.
                  >>=-ok (traverse (λ notice. index notice "source_rpm") notices) _ h7 λ rpms t h8.
                    >>=-ok (guard (all_hashable rpms) (type_error "unhashable type") >> ok rpms) _
                      h8
                      λ supplemental s h9. >>=-ok (uncovered supplemental items) _ h9 λ left u h10.
                        let same : rpms ≡ supplemental =
                          guard-ok (all_hashable rpms) (type_error "unhashable type") _ s
                            λ _ e. ok_injective rpms supplemental e in
                        record {
                          document = document;
                          found = packages;
                          source_notices = found;
                          read =
                              read_json-IsRead build "runtime/dnfast-rpm-notices.json" document d;
                          listed = p;
                          items = i;
                          notices_read =
                              read_json-IsRead build "runtime/dnfast-source-notices.json" found g;
                          all_notices = n;
                          packages = items;
                          notices = notices;
                          supplemental = supplemental;
                          noticed =
                              All-map _ _ (check_package-IsNoticed build) items
                                (check_all-All (check_package build) items c);
                          noted = check_notices-All build licenses "file" notices f;
                          named = t ∙ ap ok same;
                          covered =
                              uncovered-IsCovered supplemental items
                                (u ∙ ap ok (all_covered-eq left (guard-eq-ok _ _ h10)));
                        }
