-- ===== src/Snapshot/Gather.antt =====
-- The names that scripts/export-private-source.py gathers.
use tiny_agent.Base.{
  suffix, file_name, parts, replace_char, is_some, String, Bool, Option, none, some, List, [], ◌∷◌,
  ◌++◌, map, if◌then◌else◌, contains, Bytes, Result, ok, err, file_not_found, ◌>>=◌, traverse,
}
use tiny_agent.Json.{Json, joined, index, elements}
use tiny_agent.Snapshot.{Checkout}
use tiny_agent.Snapshot.Names.{manifest_names, listed_names}

abbrev pub concat_names : List (List String) → List String
concat_names [] = []
concat_names (names ∷ rest) = names ++ concat_names rest

abbrev pub or_missing : Option Bytes → Result Bytes
or_missing none = err (file_not_found "")
or_missing (some content) = ok content

abbrev slashes : String → String
slashes name = replace_char b'\\' "/" name

abbrev kept : (String → Bool) → List String → List String
kept test [] = []
kept test (name ∷ names) = let more = kept test names in if test name then name ∷ more else more

-- The listings of the benchmarks and of the three directories of the application.
module _ (source : Checkout) where
  unfoldable pub benchmark_names : List String
  unfolding contains
  benchmark_names = map slashes (kept is_listed (source.glob "benchmarks/package-manager"))
    where
      is_listed : String → Bool
      is_listed name =
          contains (suffix (file_name (parts name))) (".py" ∷ ".sh" ∷ ".md" ∷ ".json" ∷ [])

  unfoldable pub files_below : String → List String
  files_below place =
      map slashes (kept (λ name. is_some (source.files (parts name))) (source.rglob place))

-- The documents of the working directory and the snapshot before, and JSON's reader.
module _ (loads : Bytes → Result Json) (source : Checkout) where
  unfoldable pub read_document : String → Result Json
  read_document name = or_missing (source.files (parts name)) >>= loads

  unfoldable pub notice_name : String → String → Json → Result String
  unfolding index joined
  notice_name prefix key notice = index notice key >>= joined prefix

  unfoldable pub notice_names : String → String → Json → Result (List String)
  unfolding elements traverse notice_name
  notice_names prefix key notices = elements notices >>= traverse (notice_name prefix key)

  unfoldable pub package_names : Json → Result (List String)
  unfolding index notice_names
  package_names item =
      index item "notices" >>= notice_names "app/src/main/assets/licenses/dnfast-rpm/" "member"

  -- Every name, in the order in which they are added to the set.
  unfoldable pub gather : Json → Result (List String)
  unfolding index elements traverse joined read_document package_names notice_names benchmark_names
      files_below
  gather snapshot = do
    hashes ← index snapshot "files_sha256"
    keys ← elements hashes
    before ← traverse (joined "") keys
    rpm_notices ← read_document "runtime/dnfast-rpm-notices.json"
    packages ← index rpm_notices "packages"
    items ← elements packages
    members ← traverse package_names items
    notices ← read_document "runtime/dnfast-source-notices.json"
    sources ← notice_names "app/src/main/assets/licenses/" "file" notices
    ok (
        before
        ++ (concat_names members
            ++ (sources
                ++ (benchmark_names source
                    ++ (files_below source "app/src/main/java"
                        ++ (files_below source "app/src/debug/java"
                            ++ (files_below source "app/src/main/res"
                                ++ (manifest_names ++ listed_names))))))))
