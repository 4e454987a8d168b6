-- ===== src/Crates/NoticesRun.antt =====
-- The program of scripts/collect-dnfast-cargo-notices.py
use tiny_agent.Base.{
  FilePath, ◌++◌, map, String, ◌≡◌, sym, ap, ◌∙◌, some, List, [], ◌∷◌, Bytes, Result, ok, assertion,
  traverse,
}
use tiny_agent.Json.{
  Json, text, array, object, no_fields, field, values_of, index, elements, json_eq, text-json_eq,
}
use tiny_agent.Host.{Host, Exec, ◌>>=◌, ◌>>◌, lift, require, read, write}
use tiny_agent.Host.Rules.{then-ok, require-ok, lift-ok, read-ok, AreRounds, put-same}
use tiny_agent.Staging.{publish}
use tiny_agent.Sources.Notices.{Entry}
use tiny_agent.Crates.Notices.{Crate, crate_json, collect_crate}
use tiny_agent.Crates.Noticed.{IsCrate, collect_crate-IsCrate, traverse-AreRounds}

abbrev pub manifest_path : FilePath
manifest_path = "runtime" ∷ "dnfast-cargo-sources.json" ∷ []

abbrev pub native_source : String → FilePath
native_source name = "artifacts" ∷ "native-sources" ∷ name ∷ []

abbrev pub report_path : FilePath
report_path = "runtime" ∷ "dnfast-cargo-notices.json" ∷ []

-- The members of the archive of notices.
abbrev pub notice_members : List Crate → List (String × Bytes)
notice_members [] = []
notice_members (crate ∷ crates) = crate.notices ++ notice_members crates

abbrev pub add_lacking : String → List (String × Bytes) → List Json → List Json
add_lacking name [] rest = text name ∷ rest
add_lacking name (found ∷ more) rest = rest

-- The crates with no notices.
abbrev pub lacking : List Crate → List Json
lacking [] = []
lacking (crate ∷ crates) = add_lacking crate.name crate.notices (lacking crates)

abbrev pub scope : String
scope =
    "Notices from all locked registry crate archives, including dev and other-target dependencies; not a compiled dependency attribution"

module _ (digest : Bytes → String) where
  abbrev pub notices_report : Json → List Crate → Bytes → Json
  notices_report source crates archive = object (
      field "scope" (text scope) (
        field "source_archive_sha256" source (
          field "archive_sha256" (text (digest archive)) (
            field "packages" (array (values_of (map (crate_json digest) crates)))
              (field "without_notice_files" (array (values_of (lacking crates))) no_fields)))))

  -- The readers of tape archives, of compressed ones, of TOML and of JSON, and the writers.
  module _ (untar untar_gz : Bytes → Result (List Entry)) (toml loads : Bytes → Result Json)
      (pack : List (String × Bytes) → Bytes) (dumps : Json → Bytes) {W : Type 0} where
    unfoldable pub collect_notices : Exec W (Unit {0})
    unfolding index elements traverse collect_crate publish json_eq
    collect_notices = read manifest_path >>= λ content. lift (loads content) >>= λ manifest.
        read (native_source "dnfast-cargo-sources.tar") >>= λ archive.
        lift (index manifest "archive_sha256") >>= λ expected.
        require (json_eq (text (digest archive)) expected) (assertion "")
        >> (lift (untar archive) >>= λ sources. lift (index manifest "packages") >>= λ found.
            lift (elements found) >>= λ packages.
            lift (traverse (collect_crate digest untar_gz toml sources) packages) >>= λ crates.
            publish (native_source "dnfast-cargo-notices.part")
              (native_source "dnfast-cargo-notices.tar") (pack (notice_members crates))
            >> write report_path
                (dumps (notices_report expected crates (pack (notice_members crates)))))

    -- A collection that returns has read the manifest from runtime/dnfast-cargo-sources.json and the archive with the digest of it; it has a crate for each package of the manifest,
    -- in order: its archive is that in the collected sources, with the digest of the package, all its entries have relative paths that do not go
    -- up, and its notices are the names and contents of just those entries that are files and notices, none longer than 2 MiB; and the
    -- report is of these crates and of the archive of their notices.
    pub collect_notices-AreRounds :
        (host after : Host W)
        → collect_notices host ≡ (ok tt, after)
        → (content : Bytes) × (manifest : Json) × (archive : Bytes) × (sources : List Entry)
          × (found : Json) × (packages : List Json) × (crates : List Crate) × (host.files
                manifest_path
              ≡ some content)
          × (loads content ≡ ok manifest)
          × (host.files (native_source "dnfast-cargo-sources.tar") ≡ some archive)
          × (index manifest "archive_sha256" ≡ ok (text (digest archive)))
          × (untar archive ≡ ok sources)
          × (index manifest "packages" ≡ ok found)
          × (elements found ≡ ok packages)
          × AreRounds (IsCrate digest untar_gz sources) packages crates
          × (after.files report_path
              ≡ some (
                  dumps
                    (notices_report (text (digest archive)) crates (pack (notice_members crates)))))
    unfolding collect_notices
    collect_notices-AreRounds host after h = read-ok manifest_path _ host h λ content m h1.
        lift-ok (loads content) _ host h1 λ manifest l h2.
          read-ok (native_source "dnfast-cargo-sources.tar") _ host h2 λ archive a h3.
            lift-ok (index manifest "archive_sha256") _ host h3 λ expected e h4.
              require-ok (json_eq (text (digest archive)) expected) (assertion "") _ host h4
                λ same h5. lift-ok (untar archive) _ host h5 λ sources s h6.
                  lift-ok (index manifest "packages") _ host h6 λ found f h7.
                    lift-ok (elements found) _ host h7 λ packages p h8.
                      lift-ok (traverse (collect_crate digest untar_gz toml sources) packages) _
                        host h8
                        λ crates c h9.
                          let known = text-json_eq (digest archive) expected same in
                          let packed = pack (notice_members crates) in
                          then-ok
                            (publish (native_source "dnfast-cargo-notices.part")
                              (native_source "dnfast-cargo-notices.tar") packed)
                            (write report_path (dumps (notices_report expected crates packed))) host
                            h9
                            λ last _ h10. (
                              content,
                              manifest,
                              archive,
                              sources,
                              found,
                              packages,
                              crates,
                              m,
                              l,
                              a,
                              e ∙ ap ok known,
                              s,
                              f,
                              p,
                              traverse-AreRounds (IsCrate digest untar_gz sources) _
                                  (collect_crate-IsCrate digest untar_gz toml sources) packages
                                  crates c,
                              ap (λ (p : Result (Unit {0}) × Host W). p.1.files report_path)
                                    (sym h10)
                                  ∙ put-same report_path
                                      (some (dumps (notices_report expected crates packed)))
                                      last.files
                                  ∙ ap (λ v. some (dumps (notices_report v crates packed))) known,
                            )
