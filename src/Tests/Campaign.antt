-- ===== src/Tests/Campaign.antt =====
-- A verification of scripts/verify-campaign-apks.py with one run and one APK.
use tiny_agent.Base.{
  path_eq, ◌≡◌, refl, codes, contains, bytes_eq, str_eq, String, false, none, some, List, [], ◌∷◌,
  if◌then◌else◌, Bytes, ok, err, assertion,
}
use tiny_agent.Json.{Json, text, natural, array, values_of, object, no_fields, field}
use tiny_agent.Host.{Host, pure}
use tiny_agent.Campaign.{trim, is_run_name, apk_path, serial_number, folder_file}
use tiny_agent.Host.Chains.{AreSteps}
use tiny_agent.Campaign.Run.{Computer, verify_campaign}
use tiny_agent.Campaign.Verified.{IsChecked}
use tiny_agent.Campaign.Inputs.{verify_campaign-All}

refuses : is_run_name "../x-build-1" ≡ false
unfolding is_run_name
refuses = refl

-- A path that goes up with the other slash.
refuses_path :
    apk_path (object (field "path" (text "/workspace/tinyagent-six-builds/a\\..\\b.apk") no_fields))
    ≡ err (assertion "")
unfolding apk_path contains
refuses_path = refl

abbrev build : Json
build = object (
    field "status" (text "passed") (
      field "exit_code" (natural 0) (
        field "apks"
          (array (
            values_of (
              object (
                field "path" (text "/workspace/tinyagent-six-builds/vlc/app.apk")
                  (field "sha256" (text "sum") (field "size" (natural 3) no_fields)))
              ∷ [])))
          no_fields)))

-- What `adb` prints: a serial number, a file, and its digest.
abbrev printed : List String → Bytes
printed [] = []
printed (word ∷ words) =
    if str_eq word "shell"
    then codes "000501423003390\r\n"
    else if contains "cat" words
    then 1 ∷ 2 ∷ 3 ∷ []
    else []

abbrev machine : Computer (Unit {0})
unfolding contains
machine = record {
  digest = λ content. "sum";
  adb = λ args. pure (printed args);
  decode = λ content. if bytes_eq content [] then ok "sum  app.apk" else ok serial_number;
  loads = λ content. ok build;
  dumps = λ result. 7 ∷ [];
  namelist = λ archive. ok ("AndroidManifest.xml" ∷ []);
  testzip = λ archive. ok none;
  path_text = λ path. "app.apk";
}

abbrev run : String
run = "vlc-build-1"

abbrev start : Host (Unit {0})
start = record {
  files = λ path.
      if path_eq path (folder_file run "result.json")
      then some []
      else if path_eq path (folder_file run "build.log")
      then some (codes "BUILD SUCCESSFUL in 1s")
      else none;
  world = tt;
}

abbrev after : Host (Unit {0})
unfolding verify_campaign path_eq bytes_eq contains
after = (verify_campaign machine (run ∷ []) start).1

verify_campaign-All_example :
    (printed : Bytes) × (asked : Host (Unit {0})) × (machine.adb
        ("shell" ∷ "getprop" ∷ "ro.serialno" ∷ [])
        start
      ≡ (ok printed, asked))
    × (machine.decode (trim printed) ≡ ok serial_number)
    × AreSteps (IsChecked machine start.files) (run ∷ []) asked after
unfolding verify_campaign path_eq bytes_eq contains
verify_campaign-All_example =
    verify_campaign-All machine (λ args path host. refl) (run ∷ []) start after refl
