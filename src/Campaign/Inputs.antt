-- ===== src/Campaign/Inputs.antt =====
-- What scripts/verify-campaign-apks.py reads and writes, and what it means that it returns.
use tiny_agent.Base.{
  FilePath, path_eq, contains, ◌≡◌, refl, sym, ap, ◌∙◌, codes, words, str_eq, eq_iff, String, false,
  List, [], ◌∷◌, Bytes, Result, ok, assertion, arith,
}
use tiny_agent.Json.{Json}
use tiny_agent.Host.{Files, Host, ◌>>◌, lift, write, for_each, each}
use tiny_agent.Host.Rules.{bind-ok, then-ok, require-ok, lift-ok, pure-ok}
use tiny_agent.Host.Chains.{AreSteps}
use tiny_agent.Host.Spares.{
  Spares, bind-Spares, then-Spares, read-Spares, lift-Spares, lift-then-Spares, require-Spares,
  write-Spares, for_each-Spares,
}
use tiny_agent.Sources.Collect.{bytes_in}
use tiny_agent.Campaign.{
  is_run_name, folder_file, apk_file, check_build, apks_of, apk_path, check_copy, first_word,
  verified_json, result_json, serial_number, trim,
}
use tiny_agent.Campaign.Run
use tiny_agent.Campaign.Verified.{IsChecked, verify_run-IsChecked}

-- `adb` changes no files.
module _ {W : Type 0} (machine : Run.Computer W)
    (quiet : (args : List String) (path : FilePath) → Spares path (machine.adb args)) where
  module _ (other name : String)
      (input : str_eq "independent-apk-verification.json" name ≡ false) where
    check_sum-Spares :
        (path : String) (content : Bytes)
        → Spares (folder_file other name) (Run.check_sum machine path content)
    check_sum-Spares path content =
        bind-Spares (folder_file other name) (machine.adb (Run.sum_command machine path)) _
          (quiet (Run.sum_command machine path) (folder_file other name))
          λ printed. lift-Spares (folder_file other name) (machine.decode printed) _ λ line.
            lift-Spares (folder_file other name) (first_word (words line)) _ λ word host. refl

    check_zip-Spares :
        (dest : FilePath) → Spares (folder_file other name) (Run.check_zip machine dest)
    check_zip-Spares dest = read-Spares (folder_file other name) dest _ λ archive.
        lift-Spares (folder_file other name) (machine.namelist archive) _ λ names.
          require-Spares (folder_file other name) (contains "AndroidManifest.xml" names)
            (assertion "") _
            (lift-Spares (folder_file other name) (machine.testzip archive) _ λ broken host. refl)

    verify_apk-Spares :
        (run : String) (apk : Json)
        → Spares (folder_file other name) (Run.verify_apk machine run apk)
    unfolding Run.verify_apk path_eq
    verify_apk-Spares run apk = lift-Spares (folder_file other name) (apk_path apk) _ λ path.
        bind-Spares (folder_file other name) (machine.adb (Run.copy_command machine path)) _
          (quiet (Run.copy_command machine path) (folder_file other name))
          λ content.
            lift-then-Spares (folder_file other name) (check_copy machine.digest apk content) _ (
              then-Spares (folder_file other name) (Run.check_sum machine path content) _
                (check_sum-Spares path content)
                (then-Spares (folder_file other name) (write (apk_file run path) content)
                  (Run.check_zip machine (apk_file run path)
                    >> lift (verified_json apk (machine.path_text (apk_file run path))))
                  (write-Spares (folder_file other name) (apk_file run path) content refl)
                  (then-Spares (folder_file other name) (Run.check_zip machine (apk_file run path))
                    (lift (verified_json apk (machine.path_text (apk_file run path))))
                    (check_zip-Spares (apk_file run path)) (λ host. refl))))

    apart :
        (run : String)
        → path_eq (folder_file run "independent-apk-verification.json") (folder_file other name)
          ≡ false
    unfolding path_eq
    apart run = ground (arith, input)

    verify_run-Spares :
        (run : String) → Spares (folder_file other name) (Run.verify_run machine run)
    unfolding Run.verify_run
    verify_run-Spares run =
        require-Spares (folder_file other name) (is_run_name run) (assertion "") _ (
          read-Spares (folder_file other name) (folder_file run "result.json") _ λ content.
            lift-Spares (folder_file other name) (machine.loads content) _ λ report.
              lift-then-Spares (folder_file other name) (check_build report) _ (
                read-Spares (folder_file other name) (folder_file run "build.log") _ λ log.
                  require-Spares (folder_file other name) (bytes_in (codes "BUILD SUCCESSFUL") log)
                    (assertion "") _
                    (lift-Spares (folder_file other name) (apks_of report) _ λ apks.
                      bind-Spares (folder_file other name)
                        (for_each (Run.verify_apk machine run) apks) _
                        (for_each-Spares (folder_file other name) (Run.verify_apk machine run) apks
                          (verify_apk-Spares run))
                        λ verified.
                          require-Spares (folder_file other name) (Run.is_filled verified)
                            (assertion "") _
                            (write-Spares (folder_file other name)
                              (folder_file run "independent-apk-verification.json")
                              (machine.dumps (result_json run verified)) (apart run)))))

  -- Files in which the reports and the logs are the same.
  abbrev AreInputs : Files → Files → Type 0
  AreInputs before files =
      (run : String)
      → (files (folder_file run "result.json") ≡ before (folder_file run "result.json"))
        × (files (folder_file run "build.log") ≡ before (folder_file run "build.log"))

  IsChecked-before :
      (before files : Files) (run : String) (host after : Host W)
      → AreInputs before files
      → IsChecked machine files run host after
      → IsChecked machine before run host after
  IsChecked-before before files run host after same c = record {
    content = c.content;
    report = c.report;
    log = c.log;
    apks = c.apks;
    verified = c.verified;
    between = c.between;
    named = c.named;
    stands = sym (same run).0 ∙ c.stands;
    loaded = c.loaded;
    passed = c.passed;
    logged = sym (same run).1 ∙ c.logged;
    succeeded = c.succeeded;
    listed = c.listed;
    filled = c.filled;
    rounds = c.rounds;
    written = c.written;
  }

  verify_runs-All :
      (before : Files) (runs : List String) (host after : Host W)
      → AreInputs before host.files
      → each (Run.verify_run machine) runs host ≡ (ok tt, after)
      → AreSteps (IsChecked machine before) runs host after
  unfolding each
  verify_runs-All before [] host after same h = (pure-ok tt tt host after h).1
  verify_runs-All before (run ∷ runs) host after same h =
      then-ok (Run.verify_run machine run) (each (Run.verify_run machine) runs) host h
        λ between c h1. (
          between,
          IsChecked-before before host.files run host between same
              (verify_run-IsChecked machine run host between c),
          verify_runs-All before runs between after
              (λ other. (
                kept between c other "result.json" refl ∙ (same other).0,
                kept between c other "build.log" refl ∙ (same other).1,
              ))
              h1,
        )
    where
      kept :
          (between : Host W)
          → Run.verify_run machine run host ≡ (ok tt, between)
          → (other name : String) → str_eq "independent-apk-verification.json" name ≡ false
          → between.files (folder_file other name) ≡ host.files (folder_file other name)
      kept between c other name input =
          ap (λ (p : Result (Unit {0}) × Host W). p.1.files (folder_file other name)) (sym c)
          ∙ verify_run-Spares other name input run host

  -- When the verification of a campaign returns, and `adb` changes no files of the computer, the phone has named the expected serial number, and
  -- the runs were checked, each from where the one before has ended: by the report and the log that were there at the start the build has passed, and of each
  -- of the APKs of the report, of which there is one at least, what `adb` copied is a sound ZIP file with a manifest, of the digest and the size in the
  -- report, `adb` then printed the same digest, and the copy was written below artifacts/; and with the results of its APKs written the run ends.
  pub verify_campaign-All :
      (runs : List String) (host after : Host W)
      → Run.verify_campaign machine runs host ≡ (ok tt, after)
      → (printed : Bytes) × (asked : Host W) × (machine.adb
            ("shell" ∷ "getprop" ∷ "ro.serialno" ∷ [])
            host
          ≡ (ok printed, asked))
        × (machine.decode (trim printed) ≡ ok serial_number)
        × AreSteps (IsChecked machine host.files) runs asked after
  unfolding Run.verify_campaign
  verify_campaign-All runs host after h =
      bind-ok (machine.adb ("shell" ∷ "getprop" ∷ "ro.serialno" ∷ [])) _ host h
        λ printed asked a h1. lift-ok (machine.decode (trim printed)) _ asked h1 λ serial d h2.
          require-ok (str_eq serial serial_number) (assertion "") _ asked h2 λ e h3. (
            printed,
            asked,
            a,
            d ∙ ap ok ((eq_iff serial serial_number).0 e),
            verify_runs-All host.files runs asked after
                (λ run. (
                  still asked a (folder_file run "result.json"),
                  still asked a (folder_file run "build.log"),
                ))
                h3,
          )
    where
      still :
          {printed : Bytes} (asked : Host W)
          → machine.adb ("shell" ∷ "getprop" ∷ "ro.serialno" ∷ []) host ≡ (ok printed, asked)
          → (path : FilePath) → asked.files path ≡ host.files path
      still asked a path =
          ap (λ (p : Result Bytes × Host W). p.1.files path) (sym a) ∙ quiet _ path host
