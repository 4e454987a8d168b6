-- ===== src/Packaged/Verified.antt =====
-- What it means that a package passes scripts/check-packaged-runtime.py
use tiny_agent.Base.{
  ◌+◌, ◌<◌, ◌-◌, ◌≡◌, String, ◌<>◌, Bool, true, false, not, List, All, All-map, Bytes, ok,
  assertion, guard-eq-ok, >>=-ok, >>-ok, guard-ok, check_all, check_all-All, arith, contains, leb,
  ltb, &&_left, &&_right,
}
use tiny_agent.Json.{Json, text, index, items_of, json_eq, has_part}
use tiny_agent.Packaged.{Build, Package}
use tiny_agent.Packaged.Pins.{pins}
use tiny_agent.Packaged.Notices.{check_archives, check_packages, check_native_notices}
use tiny_agent.Packaged.Native.{
  Variant, debug, release, native, any_name, debug_names, check_proot, check_dnfast,
  check_executable, check_executables,
}
use tiny_agent.Packaged.Web.{is_web_path, check_web_file, check_tables, check_web}
use tiny_agent.Packaged.Check.{
  sum, harness_names, bootstrap_names, check_overhead, check_harness, check_bootstrap, check_pin,
  check,
}
use tiny_agent.Packaged.Covered.{
  IsPinned, IsCopy, check_digest-IsPinned, check_same-IsCopy, IsInventory,
  check_packages-IsInventory,
}

-- The interface: both tables of the manifest have the same names, and every file is in the package.
pub record IsWeb (build : Build) : Type 0 where
  pub raw : Bytes
  pub manifest : Json
  pub files : Json
  pub sha256 : Json
  pub rows : List (String × Json)
  pub stored : build.archive.read "assets/web-ui-manifest.json" ≡ ok raw
  pub loaded : build.loads raw ≡ ok manifest
  pub listed : index manifest "files" ≡ ok files
  pub hashed : index manifest "sha256" ≡ ok sha256
  pub items : items_of sha256 ≡ ok rows
  pub same : check_tables build files sha256 ≡ ok tt
  pub pinned :
      All
        (λ (row : String × Json).
          (is_web_path row.0 ≡ true) × IsPinned build ("assets/web-ui" <> row.0) row.1)
        rows

check_web_file-IsPinned :
    (build : Build) (row : String × Json)
    → check_web_file build row ≡ ok tt
    → (is_web_path row.0 ≡ true) × IsPinned build ("assets/web-ui" <> row.0) row.1
unfolding check_web_file
check_web_file-IsPinned build (path, digest) h =
    guard-ok (is_web_path path) (assertion "") _ h
      λ w h1. (w, check_digest-IsPinned build ("assets/web-ui" <> path) digest h1)

check_web-IsWeb : (build : Build) → check_web build ≡ ok tt → IsWeb build
unfolding check_web
check_web-IsWeb build h = >>=-ok (build.archive.read "assets/web-ui-manifest.json") _ h λ raw r h1.
    >>=-ok (build.loads raw) _ h1 λ manifest l h2.
      >>=-ok (index manifest "version") _ h2 λ version _ h3.
        guard-ok (json_eq version (text "1.18.29")) (assertion "") _ h3 λ _ h4.
          >>=-ok (index manifest "files") _ h4 λ files f h5.
            >>=-ok (index manifest "sha256") _ h5 λ sha256 s h6.
              >>-ok (check_tables build files sha256) _ h6 λ t h7.
                >>=-ok (has_part "/index.html" files) _ h7 λ indexed _ h8.
                  guard-ok indexed (assertion "") _ h8 λ _ h9.
                    >>=-ok (items_of sha256) _ h9 λ rows i h10.
                      >>-ok (check_all (check_web_file build) rows) _ h10 λ c _. record {
                        raw = raw;
                        manifest = manifest;
                        files = files;
                        sha256 = sha256;
                        rows = rows;
                        stored = r;
                        loaded = l;
                        listed = f;
                        hashed = s;
                        items = i;
                        same = t;
                        pinned =
                            All-map _ _ (check_web_file-IsPinned build) rows
                              (check_all-All (check_web_file build) rows c);
                      }

-- The programs for debugging are in a debug package as they were built, and in a release there are none.
abbrev pub AreExecutables : Build → Variant → Type 0
AreExecutables build debug =
    All (λ name. IsCopy build (native <> name) ("app/src/debug/jniLibs/arm64-v8a/" <> name))
      debug_names
AreExecutables build release =
    All (λ name. contains (native <> name) build.archive.names ≡ false) debug_names
    × (any_name "libproot_candidate" build.archive.names ≡ false)

not-true : (b : Bool) → not b ≡ true → b ≡ false
not-true b h = ground arith

check_executable-absent :
    (build : Build) (name : String)
    → check_executable build release name ≡ ok tt
    → contains (native <> name) build.archive.names ≡ false
unfolding check_executable
check_executable-absent build name h =
    not-true _ (guard-eq-ok _ (assertion "Debug-only executable in release") h)

check_executables-AreExecutables :
    (build : Build) (variant : Variant)
    → check_executables build variant ≡ ok tt
    → AreExecutables build variant
unfolding check_executables check_executable
check_executables-AreExecutables build debug h =
    >>-ok (check_all (check_executable build debug) debug_names) _ h λ c _.
      All-map _ _
        (λ name.
          check_same-IsCopy build (native <> name) ("app/src/debug/jniLibs/arm64-v8a/" <> name))
        debug_names (check_all-All (check_executable build debug) debug_names c)
check_executables-AreExecutables build release h =
    >>-ok (check_all (check_executable build release) debug_names) _ h λ c p. (
      All-map _ _ (check_executable-absent build) debug_names
          (check_all-All (check_executable build release) debug_names c),
      not-true _ (guard-eq-ok _ (assertion "Debug recovery probe in release") p),
    )

-- A package that passes.
pub record IsPackaged (build : Build) (variant : Variant) : Type 0 where
  pub compact : build.archive.size < sum build.archive.compressed + 4194304
  pub harness : All (λ name. IsCopy build ("assets/" <> name) ("harness/" <> name)) harness_names
  pub bootstrap :
      All (λ name. IsCopy build ("assets/bootstrap/" <> name) ("scripts/" <> name)) bootstrap_names
  pub inventory : IsInventory build
  pub executables : AreExecutables build variant
  pub pinned :
      All (λ (p : String × String). IsPinned build ("assets/" <> (p.0 <> ".bin")) (text p.1)) pins
  pub web : IsWeb build

check_overhead-lt :
    (archive : Package)
    → check_overhead archive ≡ ok tt
    → archive.size < sum archive.compressed + 4194304
unfolding check_overhead
check_overhead-lt archive h =
    let e = guard-eq-ok _ (assertion "clean rebuild required") h in
    let l =
      &&_left (leb (sum archive.compressed) archive.size)
        (ltb (archive.size - sum archive.compressed) 4194304) e in
    let r =
      &&_right (leb (sum archive.compressed) archive.size)
        (ltb (archive.size - sum archive.compressed) 4194304) e in
    ground (arith, l, r)

-- A package that passes has less than 4 MiB that are of no entry; it has the four files of the harness and the
-- ten scripts of the bootstrap as they are below the root, both runtime archives with their pinned
-- digests, and each file of the interface with the digest of the manifest; every notice that the two inventories
-- of the build name is in it with its digest, and each package of the inventory has its notices or those of its source; the programs
-- for debugging are in it as they were built if it is a debug package, and none of them if it is a release.
pub check-IsPackaged :
    (build : Build) (variant : Variant) → check build variant ≡ ok tt → IsPackaged build variant
unfolding check check_harness check_bootstrap check_pin
check-IsPackaged build variant h = >>-ok (check_overhead build.archive) _ h λ o h1.
    >>-ok (check_all (check_harness build) harness_names) _ h1 λ k h2.
      >>-ok (check_archives build) _ h2 λ _ h3. >>-ok (check_packages build) _ h3 λ n h4.
        >>-ok (check_all (check_bootstrap build) bootstrap_names) _ h4 λ b h5.
          >>-ok (check_proot build) _ h5 λ _ h6. >>-ok (check_dnfast build) _ h6 λ _ h7.
            >>-ok (check_executables build variant) _ h7 λ x h8.
              >>-ok (check_native_notices build) _ h8 λ _ h9.
                >>-ok (check_all (check_pin build) pins) _ h9 λ p w. record {
                  compact = check_overhead-lt build.archive o;
                  harness =
                      All-map _ _
                        (λ name. check_same-IsCopy build ("assets/" <> name) ("harness/" <> name))
                        harness_names (check_all-All (check_harness build) harness_names k);
                  bootstrap =
                      All-map _ _
                        (λ name.
                          check_same-IsCopy build ("assets/bootstrap/" <> name)
                            ("scripts/" <> name))
                        bootstrap_names (check_all-All (check_bootstrap build) bootstrap_names b);
                  inventory = check_packages-IsInventory build n;
                  executables = check_executables-AreExecutables build variant x;
                  pinned =
                      All-map _ _
                        (λ (pin : String × String).
                          check_digest-IsPinned build ("assets/" <> (pin.0 <> ".bin")) (text pin.1))
                        pins (check_all-All (check_pin build) pins p);
                  web = check_web-IsWeb build w;
                }
