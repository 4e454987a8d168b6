-- ===== src/Tests/Upgrade.antt =====
-- The upgrade of scripts/upgrade-dnfast-empty.py on a root with one old executable.
use tiny_agent.Base.{
  FilePath, path_eq, ◌≡◌, refl, ◌≢◌, ◌⊎◌, String, true, false, none, some, List, [], ◌∷◌, replicate,
  if◌then◌else◌, ◌==◌, Bytes, Result, ok,
}
use tiny_agent.Upgrade.{directory, regular, Disk, put, Root}
use tiny_agent.Upgrade.Package.{Apk, Manifest, Member}
use tiny_agent.Upgrade.State.{end, Row}
use tiny_agent.Upgrade.Checks.{Config}
use tiny_agent.Upgrade.Logs.{Logs}
use tiny_agent.Upgrade.Run.{upgraded, upgrade}
use tiny_agent.Upgrade.Verified.{IsUpgraded, upgrade-IsUpgraded}

-- A digest that tells the files of the test apart.
abbrev toy_digest : Bytes → String
toy_digest [] = "empty"
toy_digest (x ∷ xs) =
    if x == 109
    then "m"
    else if x == 118
    then "v"
    else if x == 111
    then "o"
    else if x == 110
    then "n"
    else "l"

abbrev decode : Bytes → String
decode s = "id"

abbrev identity : Bytes
identity = replicate 64 97

abbrev folders : List FilePath → Disk → Disk
folders [] disk = disk
folders (p ∷ ps) disk = put p (some (directory 7 0o700)) (folders ps disk)

abbrev tool : FilePath
tool = "usr" ∷ "bin" ∷ "tool" ∷ []

abbrev library : FilePath
library = "usr" ∷ "lib" ∷ "lib.so" ∷ []

abbrev before : Root
before = record {
  disk = put (".tinyagent-root-id" ∷ []) (some (regular 7 0o600 1 identity)) (
      put tool (some (regular 7 0o755 1 (111 ∷ []))) (
        folders
          ([]
            ∷ ("usr" ∷ [])
            ∷ ("usr" ∷ "bin" ∷ [])
            ∷ ("var" ∷ [])
            ∷ ("var" ∷ "lib" ∷ [])
            ∷ ("var" ∷ "lib" ∷ "dnfast" ∷ [])
            ∷ ("var" ∷ "lib" ∷ "dnfast" ∷ "app-proot" ∷ [])
            ∷ ("var" ∷ "lib" ∷ "dnfast" ∷ "app-proot" ∷ "id" ∷ [])
            ∷ [])
          (λ p. none)));
  published = [];
}

abbrev config : Config
config = record { manifest = "m"; backup = "old-to-new"; old = (tool, "o") ∷ [] }

abbrev manifest : Manifest
manifest = record { overlay_sha256 = "v"; files = (tool, "n") ∷ (library, "l") ∷ [] }

abbrev apk : Apk
apk = record { manifest_size = 1; raw = 109 ∷ []; overlay_size = 1; overlay = 118 ∷ [] }

abbrev loads : Bytes → Result Manifest
loads raw = ok manifest

abbrev members : Bytes → Result (List Member)
members overlay = ok (
    record { is_file = true; name = tool; content = 110 ∷ [] }
    ∷ record { is_file = true; name = library; content = 108 ∷ [] }
    ∷ [])

abbrev dumps : List Row → Bytes
dumps rows = []

abbrev payloads : List (FilePath × Bytes)
payloads = (tool, 110 ∷ []) ∷ (library, 108 ∷ []) ∷ []

abbrev after : Root
after = (upgrade toy_digest decode 7 7 loads members dumps config apk false end none before).0

-- The upgrade succeeds, and publishes the backup, the library, and then the executable.
upgrades :
    (upgrade toy_digest decode 7 7 loads members dumps config apk false end none before).1
    ≡ ok upgraded
unfolding upgrade path_eq
upgrades = refl

publishes_in_order :
    after.published
    ≡ (("var" ∷ "lib" ∷ "dnfast-upgrades" ∷ "old-to-new" ∷ "id" ∷ "usr_bin_tool" ∷ []), 111 ∷ [])
      ∷ (library, 108 ∷ [])
      ∷ (tool, 110 ∷ [])
      ∷ []
unfolding upgrade path_eq
publishes_in_order = refl

-- A held lock ends it, and nothing has changed.
is_locked :
    (upgrade toy_digest decode 7 7 loads members dumps config apk true end none before).0 ≡ before
unfolding upgrade path_eq
is_locked = refl

upgrade-IsUpgraded_example :
    ((upgraded ≢ upgraded) × (after ≡ before))
    ⊎ ((upgraded ≡ upgraded)
        × IsUpgraded toy_digest decode 7 7 loads members dumps config apk false end none before
            after)
upgrade-IsUpgraded_example =
    upgrade-IsUpgraded toy_digest decode 7 7 loads members dumps config apk false end none before
      upgraded upgrades
