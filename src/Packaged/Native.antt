-- ===== src/Packaged/Native.antt =====
-- The native programs in scripts/check-packaged-runtime.py
use tiny_agent.Base.{
  String, ◌<>◌, Bool, false, not, ◌||◌, List, [], ◌∷◌, Result, ok, assertion, guard, ◌>>=◌, ◌>>◌,
  check_all, contains, occurs, bytes_eq,
}
use tiny_agent.Json.{Json, Fields, pairs, fields_of, set_field, index, items_of}
use tiny_agent.Packaged.{Build, read_json, check_same, check_digest}

-- `args.variant`
pub data Variant : Type 0 where
  debug release : Variant

abbrev pub native : String
native = "lib/arm64-v8a/"

-- `{**first, **second}`
abbrev pub merged : Fields → List (String × Json) → Fields
merged kvs [] = kvs
merged kvs ((key, v) ∷ rest) = merged (set_field key v kvs) rest

unfoldable pub any_name : String → List String → Bool
any_name part [] = false
any_name part (name ∷ names) = occurs part name || any_name part names

abbrev pub debug_names : List String
debug_names = "libfdgate.so" ∷ "libmemfdprobe.so" ∷ []

module _ (build : Build) where
  unfoldable pub check_hash : String × Json → Result (Unit {0})
  unfolding check_digest
  check_hash (name, digest) = check_digest build (native <> name) digest

  -- The tracer, the loader and the two dependencies.
  unfoldable pub check_proot : Result (Unit {0})
  unfolding read_json index items_of check_all check_hash
  check_proot = do
    proot ← read_json build "evidence/proot-staging.json"
    patched ← read_json build "runtime/proot-fchmodat2-2.json"
    staged ← index proot "output_sha256"
    first ← items_of staged
    outputs ← index patched "outputs"
    second ← items_of outputs
    check_all check_hash (pairs (merged (fields_of first) second))

  -- The launcher of dnfast, its manifest and its overlay.
  unfoldable pub check_dnfast : Result (Unit {0})
  unfolding check_same check_digest index bytes_eq
  check_dnfast = do
    check_same build "lib/arm64-v8a/libdnfastlaunch.so"
        "app/src/main/jniLibs/arm64-v8a/libdnfastlaunch.so"
    manifest_bytes ← build.read_root "runtime/dnfast-1449710-manifest.json"
    packaged ← build.archive.read "assets/dnfast-manifest.json"
    guard (bytes_eq packaged manifest_bytes) (assertion "")
    overlay ← build.archive.read "assets/dnfast-root-overlay.tar.gz.bin"
    manifest ← build.loads manifest_bytes
    expected ← index manifest "overlay_sha256"
    check_digest build "assets/dnfast-root-overlay.tar.gz.bin" expected

  unfoldable pub check_executable : Variant → String → Result (Unit {0})
  unfolding check_same contains
  check_executable debug name =
      check_same build (native <> name) ("app/src/debug/jniLibs/arm64-v8a/" <> name)
  check_executable release name =
      guard (not (contains (native <> name) build.archive.names))
        (assertion "Debug-only executable in release")

  abbrev pub check_probe : Variant → Result (Unit {0})
  check_probe debug = ok tt
  check_probe release =
      guard (not (any_name "libproot_candidate" build.archive.names))
        (assertion "Debug recovery probe in release")

  unfoldable pub check_executables : Variant → Result (Unit {0})
  unfolding check_all check_executable any_name
  check_executables variant =
      check_all (check_executable variant) debug_names >> check_probe variant
