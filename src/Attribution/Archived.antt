-- ===== src/Attribution/Archived.antt =====
-- What is in the archive that scripts/collect-dnfast-rpm-notices.py writes.
use tiny_agent.Base.{
  ◌≡◌, refl, sym, subst, String, true, not, Option, none, some, List, [], ◌∷◌, ◌++◌, append-nil',
  append_assoc', leb, length, str_eq, split_lines, Bytes, ok, guard-ok, >>=-ok, ok_injective,
  traverse, Dict, dict_at,
}
use tiny_agent.Json.{Json, index, items_of}
use tiny_agent.Host.Rules.{AreRounds}
use tiny_agent.Snapshot.Order.{sorted_set}
use tiny_agent.Attribution.{Notice, Row}
use tiny_agent.Attribution.Collect.{
  Image, Archive, max_notice, member_name, has_member, nth_line, as_name, read_siblings,
  owners_and_paths, read_notice, read_notices, collect_package, collect_packages,
  collect_attribution,
}

AreRounds-append :
    {A B : Type 0} (R : A → B → Type 0) (xs : List A) (ys : List B) (x : A) (y : B)
    → AreRounds R xs ys
    → R x y
    → AreRounds R (xs ++ (x ∷ [])) (ys ++ (y ∷ []))
AreRounds-append R [] [] x y h r = (r, tt)
AreRounds-append R [] (b ∷ ys) x y h r = elim h [ ]
AreRounds-append R (a ∷ xs) [] x y h r = elim h [ ]
AreRounds-append R (a ∷ xs) (b ∷ ys) x y h r = (h.0, AreRounds-append R xs ys x y h.1 r)

abbrev pub all_notices : List Row → List Notice
all_notices [] = []
all_notices (row ∷ rows) = row.notices ++ all_notices rows

module _ (digest : Bytes → String) (image : Image) where
  -- The notice is of a member of the archive: it has its name and digest, and the member is the file of the image,
  -- which is not oversized.
  abbrev pub IsArchived : Notice → String × Bytes → Type 0
  IsArchived notice (member, content) =
      (notice.member ≡ member)
      × (notice.sha256 ≡ digest content)
      × (image.files notice.path ≡ some content)
      × (leb (length content) max_notice ≡ true)

  module _ (earlier : List Notice) where
    -- The archive has the notices of the earlier rows and of this one.
    abbrev IsKept : Row × Archive → Type 0
    IsKept (row, archive) = AreRounds IsArchived (earlier ++ row.notices) archive

    read_notice-IsKept :
        (name : String) (owners : Dict String) (path : String) (found : Option Bytes)
        (before after : Row × Archive)
        → image.files path ≡ found
        → read_notice digest image name owners path found before ≡ ok after
        → IsKept before
        → IsKept after
    read_notice-IsKept name owners path none before after f h kept =
        subst IsKept (ok_injective _ after h) kept
    read_notice-IsKept name owners path (some content) (row, archive) after f h kept =
        guard-ok (leb (length content) max_notice) _ _ h λ small h1.
          >>=-ok (dict_at path owners) _ h1 λ owner _ h2.
            guard-ok (not (has_member (member_name name owner path) row.notices)) _ _ h2 λ _ h3.
              subst IsKept (ok_injective _ after h3) (
                subst
                  (λ notices.
                    AreRounds IsArchived notices
                      (archive ++ ((member_name name owner path, content) ∷ [])))
                  (append_assoc' earlier row.notices _)
                  (AreRounds-append IsArchived (earlier ++ row.notices) archive _ _ kept
                    (refl, refl, f, small)))

    read_notices-IsKept :
        (name : String) (owners : Dict String) (paths : List String) (before after : Row × Archive)
        → read_notices digest image name owners paths before ≡ ok after
        → IsKept before
        → IsKept after
    unfolding read_notices
    read_notices-IsKept name owners [] before after h kept =
        subst IsKept (ok_injective before after h) kept
    read_notices-IsKept name owners (path ∷ paths) before after h kept =
        >>=-ok (read_notice digest image name owners path (image.files path) before) _ h
          λ between r h1.
            read_notices-IsKept name owners paths between after h1
              (read_notice-IsKept name owners path (image.files path) before between refl r kept)

  collect_package-AreRounds :
      (earlier : List Notice) (siblings : Dict (List String)) (name : String) (row : Row)
      (before after : Archive)
      → collect_package digest image siblings name before ≡ ok (row, after)
      → AreRounds IsArchived earlier before
      → AreRounds IsArchived (earlier ++ row.notices) after
  unfolding collect_package
  collect_package-AreRounds earlier siblings name row before after h kept =
      >>=-ok (image.query name) _ h λ printed _ h1.
        >>=-ok (nth_line 0 (split_lines printed)) _ h1 λ found _ h2.
          guard-ok (str_eq found name) _ _ h2 λ _ h3.
            >>=-ok (image.license_files name) _ h3 λ listed _ h4.
              >>=-ok (nth_line 1 (split_lines printed)) _ h4 λ source _ h5.
                >>=-ok (nth_line 2 (split_lines printed)) _ h5 λ license _ h6.
                  >>=-ok (owners_and_paths digest image name source siblings (split_lines listed)) _
                    h6
                    λ owned _ h7.
                      read_notices-IsKept earlier name owned.0 owned.1 _ (row, after) h7
                        (subst (λ notices. AreRounds IsArchived notices before)
                          (sym (append-nil' earlier)) kept)

  collect_packages-AreRounds :
      (earlier : List Notice) (siblings : Dict (List String)) (names : List String)
      (rows : List Row) (before after : Archive)
      → collect_packages digest image siblings names before ≡ ok (rows, after)
      → AreRounds IsArchived earlier before
      → AreRounds IsArchived (earlier ++ all_notices rows) after
  unfolding collect_packages
  collect_packages-AreRounds earlier siblings [] rows before after h kept =
      subst (λ (p : List Row × Archive). AreRounds IsArchived (earlier ++ all_notices p.0) p.1)
        (ok_injective ([], before) (rows, after) h)
        (subst (λ notices. AreRounds IsArchived notices before) (sym (append-nil' earlier)) kept)
  collect_packages-AreRounds earlier siblings (name ∷ names) rows before after h kept =
      >>=-ok (collect_package digest image siblings name before) _ h λ collected c h1.
        >>=-ok (collect_packages digest image siblings names collected.1) _ h1 λ rest r h2.
          subst (λ (p : List Row × Archive). AreRounds IsArchived (earlier ++ all_notices p.0) p.1)
            (ok_injective (collected.0 ∷ rest.0, rest.1) (rows, after) h2)
            (subst (λ notices. AreRounds IsArchived notices rest.1)
              (append_assoc' earlier collected.0.notices (all_notices rest.0))
              (collect_packages-AreRounds (earlier ++ collected.0.notices) siblings names rest.0
                collected.1 rest.1 r
                (collect_package-AreRounds earlier siblings name collected.0 before collected.1 c
                  kept)))

  -- A collection that returns has in the archive a member for each notice of its rows, in their order, and no other:
  -- the notice has the member's name and the digest of its content, which is that of the file in the image, and no
  -- longer than the limit.
  pub collect_attribution-AreRounds :
      (pack : Archive → Bytes) (manifest : Json) (rows : List Row) (archive : Archive)
      (report : Json)
      → collect_attribution digest image pack manifest ≡ ok (rows, archive, report)
      → AreRounds IsArchived (all_notices rows) archive
  unfolding collect_attribution
  collect_attribution-AreRounds pack manifest rows archive report h =
      >>=-ok image.installed _ h λ printed _ h1.
        >>=-ok (read_siblings (split_lines printed) []) _ h1 λ siblings _ h2.
          >>=-ok (index manifest "library_packages") _ h2 λ libraries _ h3.
            >>=-ok (items_of libraries) _ h3 λ values _ h4.
              >>=-ok (traverse (λ (row : String × Json). as_name row.1) values) _ h4 λ names _ h5.
                >>=-ok (collect_packages digest image siblings (sorted_set names) []) _ h5
                  λ collected c h6. >>=-ok (index manifest "candidate_commit") _ h6 λ commit _ h7.
                    subst
                      (λ (p : List Row × Archive × Json).
                        AreRounds IsArchived (all_notices p.0) p.1)
                      (ok_injective _ (rows, archive, report) h7)
                      (collect_packages-AreRounds [] siblings (sorted_set names) collected.0 []
                        collected.1 c tt)
