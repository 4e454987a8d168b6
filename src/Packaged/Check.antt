-- ===== src/Packaged/Check.antt =====
-- scripts/check-packaged-runtime.py as a whole.
use tiny_agent.Base.{
  ℕ, ◌+◌, ◌-◌, ◌*◌, String, ◌<>◌, ◌&&◌, List, [], ◌∷◌, ltb, leb, Result, assertion, guard, ◌>>◌,
  check_all,
}
use tiny_agent.Json.{text}
use tiny_agent.Packaged.{Build, Package, check_same, check_digest}
use tiny_agent.Packaged.Pins.{pins}
use tiny_agent.Packaged.Notices.{check_archives, check_packages, check_native_notices}
use tiny_agent.Packaged.Native.{Variant, check_proot, check_dnfast, check_executables}
use tiny_agent.Packaged.Web.{check_web}

abbrev pub sum : List ℕ → ℕ
sum [] = 0
sum (n ∷ ns) = n + sum ns

abbrev pub harness_names : List String
harness_names = "AGENTS.md" ∷ "STOCK.md" ∷ "ADB.md" ∷ "ROOT.md" ∷ []

abbrev pub bootstrap_names : List String
bootstrap_names =
    "prepare-development.sh" ∷ "prepare-self-build.sh" ∷ "prepare-android-sdk-fedora.py"
    ∷ "configure-android-sdk-fedora.py" ∷ "configure-arm-aidl.py" ∷ "tinyagent-packages.py"
    ∷ "upgrade-dnfast-empty.py" ∷ "upgrade-dnfast-checked.py" ∷ "tinyagent-android.py"
    ∷ "android-job.sh" ∷ []

-- The bytes of the package that are of no entry are few.
unfoldable pub check_overhead : Package → Result (Unit {0})
check_overhead package_file =
    guard
      (leb (sum package_file.compressed) package_file.size
        && ltb (package_file.size - sum package_file.compressed) (4 * 1024 * 1024))
      (assertion "clean rebuild required")

module _ (build : Build) where
  unfoldable pub check_harness : String → Result (Unit {0})
  unfolding check_same
  check_harness name = check_same build ("assets/" <> name) ("harness/" <> name)

  unfoldable pub check_bootstrap : String → Result (Unit {0})
  unfolding check_same
  check_bootstrap name = check_same build ("assets/bootstrap/" <> name) ("scripts/" <> name)

  unfoldable pub check_pin : String × String → Result (Unit {0})
  unfolding check_digest
  check_pin (name, digest) = check_digest build ("assets/" <> (name <> ".bin")) (text digest)

  unfoldable pub check : Variant → Result (Unit {0})
  unfolding check_overhead check_harness check_bootstrap check_pin check_all check_archives
      check_packages check_native_notices check_proot check_dnfast check_executables check_web
  check variant = do
    check_overhead build.archive
    check_all check_harness harness_names
    check_archives build
    check_packages build
    check_all check_bootstrap bootstrap_names
    check_proot build
    check_dnfast build
    check_executables build variant
    check_native_notices build
    check_all check_pin pins
    check_web build
