-- ===== src/Tests/Snapshot.antt =====
-- An export of scripts/export-private-source.py to an empty checkout, and its verification.
use tiny_agent.Base.{
  FilePath, path_eq, String, ◌≡◌, refl, ◌⊎◌, Option, none, some, List, [], ◌∷◌, if◌then◌else◌, ℕ,
  ◌==◌, Bytes, Result, ok, err, value_error,
}
use tiny_agent.Json.{Json, null, array, no_values, object, field, no_fields}
use tiny_agent.Snapshot.{file, Tree, put, Checkout, ApkFile}
use tiny_agent.Snapshot.Order.{sorted_set}
use tiny_agent.Snapshot.Export.{Progress, export_files}
use tiny_agent.Snapshot.Publish.{snapshot_path, prepare, complete, export_source}
use tiny_agent.Snapshot.Allowed.{Change, export_source-Change}

abbrev digest : Bytes → String
digest [] = "none"
digest (x ∷ xs) = if x == 7 then "seven" else "other"

abbrev canonical : Tree → String → Bytes → Result Bytes
canonical tree name content = ok content

abbrev origin : Tree → Result String
origin tree = ok "https://github.com/GPLaider/TinyAgent.git\n"

abbrev files : FilePath → Option Bytes
files path =
    if path_eq path snapshot_path
    then none
    else if path_eq path ("runtime" ∷ "dnfast-source-notices.json" ∷ [])
    then some (1 ∷ [])
    else some (0 ∷ [])

abbrev source : Checkout
source = record {
  files = files;
  glob = λ place. "benchmarks/package-manager/a.py" ∷ "benchmarks/package-manager/a.bin" ∷ [];
  rglob = λ place. [];
  head = ok "c0\n";
}

abbrev apk : ApkFile
apk = record { path = "app.apk" ∷ []; content = some (7 ∷ []) }

abbrev empty_document : Json
empty_document =
    object (field "files_sha256" (object no_fields) (field "packages" (array no_values) no_fields))

abbrev start : Tree
start = put snapshot_path (file (0 ∷ [])) (λ path. none)

-- A reader for the documents of this run; the last is the one that the export writes.
abbrev loads : Json → Bytes → Result Json
loads written [] = err (value_error "")
loads written (x ∷ xs) =
    if x == 0 then ok empty_document else if x == 1 then ok (array no_values) else ok written

abbrev dumps : Json → Bytes
dumps document = 2 ∷ []

abbrev names_of : Result (Json × List String) → List String
names_of (err x) = []
names_of (ok (snapshot, names)) = names

abbrev names : List String
names = names_of (prepare digest canonical origin (loads null) dumps source apk start)

abbrev last : Progress
last =
    (export_files digest canonical source names
      (record { hashes = no_fields; raw_normalized = no_fields; changed = []; tree = start })).1

abbrev or_null : Result Json → Json
or_null (err x) = null
or_null (ok document) = document

abbrev written : Json
written =
    or_null (complete digest canonical origin (loads null) dumps source apk empty_document last)

abbrev exported : Result (ℕ × List String) × Tree
exported = export_source digest canonical origin (loads written) dumps source apk start

prepared :
    prepare digest canonical origin (loads written) dumps source apk start
    ≡ ok (empty_document, names)
unfolding prepare path_eq
prepared = refl

-- At the path of a file that is exported.
export_source-Change_example :
    let path : FilePath = "scripts" ∷ "check-release.py" ∷ [] in
    (path ≡ snapshot_path) ⊎ Change source names path (start path) (exported.1 path)
unfolding prepare path_eq
export_source-Change_example =
    export_source-Change digest canonical origin (loads written) dumps source apk start
      empty_document names ("scripts" ∷ "check-release.py" ∷ []) refl prepared

sorts : sorted_set ("b" ∷ "a" ∷ "b" ∷ "a/b" ∷ []) ≡ "a" ∷ "a/b" ∷ "b" ∷ []
unfolding sorted_set
sorts = refl
