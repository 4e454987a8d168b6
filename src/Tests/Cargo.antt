-- ===== src/Tests/Cargo.antt =====
-- A collection of scripts/collect-dnfast-cargo-notices.py with one crate.
use tiny_agent.Base.{
  path_eq, contains, ◌++◌, ◌≡◌, refl, String, true, none, some, List, [], ◌∷◌, if◌then◌else◌, ◌==◌,
  Bytes, Result, ok,
}
use tiny_agent.Json.{Json, text, array, values_of, object, no_fields, field, index, elements}
use tiny_agent.Host.{Host}
use tiny_agent.Host.Rules.{AreRounds}
use tiny_agent.Sources.Notices.{Entry}
use tiny_agent.Crates.Notices.{Crate}
use tiny_agent.Crates.Noticed.{IsCrate}
use tiny_agent.Crates.NoticesRun.{
  manifest_path, native_source, report_path, notice_members, notices_report, collect_notices,
  collect_notices-AreRounds,
}

abbrev digest : Bytes → String
digest [] = "none"
digest (x ∷ xs) = if x == 2 then "sources" else if x == 3 then "crate" else "other"

abbrev entry_of : String → Bytes → Entry
entry_of name content = record { name = name; is_file = true; size = 1; content = ok content }

abbrev untar : Bytes → Result (List Entry)
untar archive = ok (entry_of "registry/a-1.crate" (3 ∷ []) ∷ [])

abbrev untar_gz : Bytes → Result (List Entry)
untar_gz crate = ok (
    entry_of "a-1/Cargo.toml" (4 ∷ [])
    ∷ entry_of "a-1/License-MIT" (5 ∷ [])
    ∷ entry_of "a-1/src/lib.rs" (6 ∷ [])
    ∷ entry_of "a-1/legal.txt" (7 ∷ [])
    ∷ [])

-- The crate declares a file that has no name of a notice.
abbrev toml : Bytes → Result Json
toml content = ok (
    object (field "package" (object (field "license-file" (text "legal.txt") no_fields)) no_fields))

abbrev manifest : Json
manifest = object (
    field "archive_sha256" (text "sources") (
      field "packages"
        (array (
          values_of (
            object (
              field "name" (text "a")
                (field "version" (text "1") (field "sha256" (text "crate") no_fields)))
            ∷ [])))
        no_fields))

abbrev loads : Bytes → Result Json
loads content = ok manifest

abbrev pack : List (String × Bytes) → Bytes
pack [] = []
pack ((name, content) ∷ rest) = content ++ pack rest

abbrev dumps : Json → Bytes
dumps report = 0 ∷ []

abbrev start : Host (Unit {0})
start = record {
  files = λ path.
      if path_eq path manifest_path
      then some (1 ∷ [])
      else if path_eq path (native_source "dnfast-cargo-sources.tar")
      then some (2 ∷ [])
      else none;
  world = tt;
}

abbrev collected : Result (Unit {0}) × Host (Unit {0})
collected = collect_notices digest untar untar_gz toml loads pack dumps start

collect_notices-AreRounds_example :
    (content : Bytes) × (listed : Json) × (archive : Bytes) × (sources : List Entry)
    × (found : Json) × (packages : List Json) × (crates : List Crate) × (start.files manifest_path
        ≡ some content)
    × (loads content ≡ ok listed)
    × (start.files (native_source "dnfast-cargo-sources.tar") ≡ some archive)
    × (index listed "archive_sha256" ≡ ok (text (digest archive)))
    × (untar archive ≡ ok sources)
    × (index listed "packages" ≡ ok found)
    × (elements found ≡ ok packages)
    × AreRounds (IsCrate digest untar_gz sources) packages crates
    × (collected.1.files report_path
        ≡ some (
            dumps (
              notices_report digest (text (digest archive)) crates (pack (notice_members crates)))))
unfolding collect_notices path_eq contains
collect_notices-AreRounds_example =
    collect_notices-AreRounds digest untar untar_gz toml loads pack dumps start collected.1 refl

-- Both notices are packed.
packs : collected.1.files (native_source "dnfast-cargo-notices.tar") ≡ some (5 ∷ 7 ∷ [])
unfolding collect_notices path_eq contains
packs = refl
