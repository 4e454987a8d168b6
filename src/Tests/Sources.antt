-- ===== src/Tests/Sources.antt =====
-- A collection of scripts/collect-proot-sources.py with one small archive.
use tiny_agent.Base.{
  path_eq, codes, ℕ, ◌≡◌, refl, String, ◌<>◌, true, none, some, List, [], ◌∷◌, if◌then◌else◌, ◌==◌,
  str_eq, Bytes, Result, ok, err, runtime_error,
}
use tiny_agent.Json.{Json}
use tiny_agent.Host.{Host}
use tiny_agent.Host.Rules.{AreRounds}
use tiny_agent.Sources.{Page, Source}
use tiny_agent.Sources.Notices.{Entry}
use tiny_agent.Sources.Collect.{Pin, Record, out, report_json, collect_sources, termux_revision}
use tiny_agent.Sources.Verified.{IsFetched}
use tiny_agent.Sources.Collected.{IsRecord, IsLicense, collect_sources-AreRounds}

abbrev digest : Bytes → String
digest [] = "none"
digest (x ∷ xs) =
    if x == b'G'
    then "3972dc9744f6499f0f9b2dbf76696f2ae7ad8af9b23dde66d6af86c9dfb36986"
    else if x == 1
    then "10f95083c4f8444d412adfbe36d6cd2439e6a771fa72ebaa0873f92488489741"
    else if x == 7
    then "seven"
    else "other"

abbrev content_at : String → Bytes
content_at url =
    if str_eq url "https://www.gnu.org/licenses/gpl-3.0.txt"
    then codes "GNU GENERAL PUBLIC LICENSE, Version 3"
    else if str_eq url "https://h/p.zip"
    then 7 ∷ []
    else 1 ∷ []

abbrev urlopen : String → ℕ → Unit {0} → Result Page × Unit {0}
urlopen url most world = (ok (record { url = url; content = ok (content_at url) }), world)

abbrev unzip : Bytes → Result (List Entry)
unzip content = ok (
    record { name = "p/src/main.c"; is_file = true; size = 9; content = ok (5 ∷ []) }
    ∷ record { name = "p/Copying.txt"; is_file = true; size = 2; content = ok (6 ∷ []) }
    ∷ [])

abbrev untar : Bytes → Result (List Entry)
untar content = err (runtime_error "not a tape archive")

abbrev dumps : Json → Bytes
dumps document = 0 ∷ []

abbrev pin : Pin
pin = record { name = "p.zip"; url = "https://h/p.zip"; expected = "seven" }

abbrev start : Host (Unit {0})
start = record { files = λ path. none; world = tt }

abbrev collected : Result (Unit {0}) × Host (Unit {0})
collected = collect_sources digest urlopen unzip untar dumps (pin ∷ []) start

collect_sources-AreRounds_example :
    (records : List Record) × (gpl : Source) × (recipe : Source) × (content : Bytes)
    × (collected.1.files ("evidence" ∷ "native-source-collection.json" ∷ [])
        ≡ some (dumps (report_json records gpl recipe)))
    × AreRounds (IsRecord digest urlopen unzip untar dumps) (pin ∷ []) records
    × IsLicense digest urlopen unzip untar dumps gpl
    × IsFetched digest urlopen
        ("https://github.com/termux/termux-packages/archive/" <> (termux_revision <> ".tar.gz"))
        (out ("termux-packages-" <> (termux_revision <> ".tar.gz")))
        "10f95083c4f8444d412adfbe36d6cd2439e6a771fa72ebaa0873f92488489741"
        content
        recipe
unfolding collect_sources path_eq
collect_sources-AreRounds_example =
    collect_sources-AreRounds digest urlopen unzip untar dumps (pin ∷ []) start collected.1 refl

-- The notice of the archive is stored under a numbered name.
stores : collected.1.files (out "p.zip.0.license.txt") ≡ some (6 ∷ [])
unfolding collect_sources path_eq
stores = refl
