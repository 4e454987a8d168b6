-- ===== src/Checkout/Exported.antt =====
-- What it means that scripts/collect-dnfast-sources.py returns.
use tiny_agent.Base.{
  path_eq, ◌≡◌, refl, sym, ap, ◌∙◌, String, ◌<>◌, none, some, List, All, str_eq, eq_iff, strip,
  Bytes, bytes_eq→eq, Result, ok, value_error, >>=-ok, >>-ok, guard-eq-ok, check_all-All,
}
use tiny_agent.Json.{Json}
use tiny_agent.Host.{Host, Files, put, lift, replace}
use tiny_agent.Host.Rules.{then-ok, require-ok, lift-ok, put-same, put-other}
use tiny_agent.Sources.Notices.{Entry}
use tiny_agent.Rpms.{get_member}
use tiny_agent.Staging.Published.{replace-files}
use tiny_agent.Checkout.{
  revision, Checkout, archive_name, native_sources, license_file, receipt, member, required_names,
  is_there, receipt_json, check_license, check_archive, export_checkout,
}

module _ (untar : Bytes → Result (List Entry)) where
  -- The archive has the licence, and the three files.
  abbrev pub IsArchive : Bytes → Bytes → Type 0
  IsArchive packed notice =
      (entries : List Entry) × (entry : Entry) × (untar packed ≡ ok entries)
      × (get_member (member "LICENSE") entries ≡ ok entry)
      × (entry.content ≡ ok notice)
      × All (λ name. is_there entries name ≡ ok tt) required_names

  check_archive-IsArchive :
      (digest : Bytes → String) (packed notice : Bytes)
      → check_archive digest untar packed notice ≡ ok tt
      → IsArchive packed notice
  unfolding check_archive
  check_archive-IsArchive digest packed notice h = >>=-ok (untar packed) _ h λ entries u h1.
      >>-ok (check_license digest untar entries notice) _ h1 λ l h2.
        >>=-ok (get_member (member "LICENSE") entries) _ l λ entry g l1.
          >>=-ok entry.content _ l1 λ content c l2. (
            entries,
            entry,
            u,
            g,
            c
                ∙ ap ok (
                    bytes_eq→eq content notice
                      (guard-eq-ok _ (value_error "Archive notice mismatch") l2)),
            check_all-All (is_there entries) required_names h2,
          )

  -- An export that returns is of the pinned commit: the archive that git made of it is stored, has the three manifests and the licence
  -- that git gives, byte for byte, which is stored too; the receipt has the digests of both.
  pub export_checkout-IsArchive :
      (digest : Bytes → String) {W : Type 0} (checkout : Checkout) (dumps : Json → Bytes)
      (host after : Host W)
      → export_checkout digest untar checkout dumps host ≡ (ok tt, after)
      → (printed : String) × (packed : Bytes) × (notice : Bytes) × (checkout.commit ≡ ok printed)
        × (strip printed ≡ revision)
        × (checkout.archive ≡ ok packed)
        × (checkout.license ≡ ok notice)
        × IsArchive packed notice
        × (after.files (native_sources archive_name) ≡ some packed)
        × (after.files license_file ≡ some notice)
        × (after.files receipt ≡ some (dumps (receipt_json digest packed notice)))
  unfolding export_checkout path_eq
  export_checkout-IsArchive digest {W} checkout dumps host after h =
      lift-ok checkout.commit _ host h λ printed c h1.
        require-ok (str_eq (strip printed) revision) _ _ host h1 λ r h2.
          lift-ok checkout.license _ host h2 λ notice n h3.
            lift-ok checkout.archive _ host h3 λ packed p h4.
              let partial = native_sources (archive_name <> ".part") in
              let target = native_sources archive_name in
              let start = record host { files = put partial (some packed) host.files } in
              then-ok (lift (check_archive digest untar packed notice)) _ start h4 λ between k h5.
                then-ok (replace partial target) _ between h5 λ last m h6.
                  let kept : between ≡ start =
                    sym (ap (λ (p : Result (Unit {0}) × Host W). p.1) k) in
                  let moved =
                    replace-files partial target packed between last
                      (ap (λ (h : Host W). h.files partial) kept
                        ∙ put-same partial (some packed) host.files)
                      m in
                  let content = dumps (receipt_json digest packed notice) in
                  let noted = put license_file (some notice) last.files in
                  let files : after.files ≡ put receipt (some content) noted =
                    ap (λ (p : Result (Unit {0}) × Host W). p.1.files) (sym h6) in
                  (
                    printed,
                    packed,
                    notice,
                    c,
                    (eq_iff (strip printed) revision).0 r,
                    p,
                    n,
                    check_archive-IsArchive digest packed notice
                        (ap (λ (p : Result (Unit {0}) × Host W). p.0) k),
                    ap (λ (f : Files). f target) (files)
                        ∙ put-other receipt target (some content) noted refl
                        ∙ put-other license_file target (some notice) last.files refl
                        ∙ ap (λ (f : Files). f target) moved
                        ∙ put-same target (some packed) (put partial none between.files),
                    ap (λ (f : Files). f license_file) files
                        ∙ put-other receipt license_file (some content) noted refl
                        ∙ put-same license_file (some notice) last.files,
                    ap (λ (f : Files). f receipt) files ∙ put-same receipt (some content) noted,
                  )
