-- ===== src/Campaign/Run.antt =====
-- The program of scripts/verify-campaign-apks.py
use tiny_agent.Base.{
  FilePath, codes, contains, str_eq, words, String, ◌<>◌, Bool, true, false, Option, none, some,
  List, [], ◌∷◌, Bytes, Result, assertion,
}
use tiny_agent.Json.{Json}
use tiny_agent.Host.{Exec, ◌>>=◌, ◌>>◌, lift, require, read, write, for_each, each}
use tiny_agent.Sources.Collect.{bytes_in}
use tiny_agent.Campaign

-- SHA-256, `adb` on the one device, Python's readers and writers, the ZIP file's names and the first of its members that is broken, and
-- the text of a path below the repository's root.
pub record Computer (W : Type 0) : Type 0 where
  pub digest : Bytes → String
  pub adb : List String → Exec W Bytes
  pub decode : Bytes → Result String
  pub loads : Bytes → Result Json
  pub dumps : Json → Bytes
  pub namelist : Bytes → Result (List String)
  pub testzip : Bytes → Result (Option String)
  pub path_text : FilePath → String

abbrev pub is_unbroken : Option String → Bool
is_unbroken none = true
is_unbroken (some name) = false

abbrev pub is_filled : List Json → Bool
is_filled [] = false
is_filled (v ∷ vs) = true

module _ {W : Type 0} (machine : Computer W) where
  -- A file of the app on the phone, and what the phone says of it.
  abbrev pub copy_command : String → List String
  copy_command path =
      "exec-out" ∷ "run-as" ∷ Campaign.app_package ∷ "cat" ∷ ("files/linux" <> path) ∷ []

  abbrev pub sum_command : String → List String
  sum_command path =
      "exec-out" ∷ "run-as" ∷ Campaign.app_package ∷ "sha256sum" ∷ ("files/linux" <> path) ∷ []

  abbrev pub check_sum : String → Bytes → Exec W (Unit {0})
  check_sum path content = machine.adb (sum_command path) >>= λ printed.
      lift (machine.decode printed) >>= λ line. lift (Campaign.first_word (words line)) >>= λ word.
      require (str_eq word (machine.digest content)) (assertion "")

  abbrev pub check_zip : FilePath → Exec W (Unit {0})
  check_zip dest = read dest >>= λ archive. lift (machine.namelist archive) >>= λ names.
      require (contains "AndroidManifest.xml" names) (assertion "")
      >> (lift (machine.testzip archive) >>= λ broken. require (is_unbroken broken) (assertion ""))

  -- One round of the loop over the APKs of a run.
  unfoldable pub verify_apk : String → Json → Exec W Json
  unfolding Campaign.apk_path Campaign.check_copy contains
  verify_apk run apk = lift (Campaign.apk_path apk) >>= λ path.
      machine.adb (copy_command path) >>= λ content.
      lift (Campaign.check_copy machine.digest apk content)
      >> (check_sum path content
          >> (write (Campaign.apk_file run path) content
              >> (check_zip (Campaign.apk_file run path)
                  >> lift (
                      Campaign.verified_json apk
                        (machine.path_text (Campaign.apk_file run path))))))

  -- One round of the loop over the runs.
  unfoldable pub verify_run : String → Exec W (Unit {0})
  unfolding Campaign.is_run_name Campaign.check_build Campaign.apks_of Campaign.result_json bytes_in
      for_each verify_apk
  verify_run run =
      require (Campaign.is_run_name run) (assertion "")
      >> (read (Campaign.folder_file run "result.json") >>= λ content.
          lift (machine.loads content) >>= λ report.
          lift (Campaign.check_build report)
          >> (read (Campaign.folder_file run "build.log") >>= λ log.
              require (bytes_in (codes "BUILD SUCCESSFUL") log) (assertion "")
              >> (lift (Campaign.apks_of report) >>= λ apks.
                  for_each (verify_apk run) apks >>= λ verified.
                  require (is_filled verified) (assertion "")
                  >> write (Campaign.folder_file run "independent-apk-verification.json")
                      (machine.dumps (Campaign.result_json run verified)))))

  unfoldable pub verify_campaign : List String → Exec W (Unit {0})
  unfolding each verify_run
  verify_campaign runs = machine.adb ("shell" ∷ "getprop" ∷ "ro.serialno" ∷ []) >>= λ printed.
      lift (machine.decode (Campaign.trim printed)) >>= λ serial.
      require (str_eq serial Campaign.serial_number) (assertion "") >> each verify_run runs
