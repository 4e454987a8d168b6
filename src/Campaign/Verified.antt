-- ===== src/Campaign/Verified.antt =====
-- What a round of scripts/verify-campaign-apks.py has checked.
use tiny_agent.Base.{
  FilePath, ◌≡◌, refl, sym, ap, ◌∙◌, subst, codes, contains, words, str_eq, eq_iff, String, Bool,
  true, false, not, ◌&&◌, &&_left, &&_right, Option, none, some, List, starts_with, length, Bytes,
  Result, ok, assertion, >>=-ok, guard-ok, guard-eq-ok, arith, ok_injective, some_injective,
}
use tiny_agent.Json.{
  Json, null, boolean, natural, negative, text, array, object, index, json_eq, text-json_eq,
  json_eq-text,
}
use tiny_agent.Host.{Files, Host, write, for_each}
use tiny_agent.Host.Rules.{
  bind-ok, then-ok, require-ok, require-end, lift-ok, lift-then-ok, lift-end, read-ok, put-same,
}
use tiny_agent.Host.Chains.{AreGiven, for_each-AreGiven}
use tiny_agent.Sources.Collect.{bytes_in}
use tiny_agent.Campaign.{
  is_run_name, folder_file, apk_file, windows_parts, check_build, apks_of, as_path, apk_path,
  check_copy, first_word, verified_json, result_json,
}
use tiny_agent.Campaign.Run

not-true : (b : Bool) → not b ≡ true → b ≡ false
not-true b h = ground arith

as_path-text : (v : Json) (path : String) → as_path v ≡ ok path → v ≡ text path
as_path-text (text s) path h = ap text (ok_injective s path h)
as_path-text null path h = cc
as_path-text (boolean b) path h = cc
as_path-text (natural n) path h = cc
as_path-text (negative n) path h = cc
as_path-text (array _) path h = cc
as_path-text (object _) path h = cc

-- The report is of a build that passed.
pub record HasPassed (report : Json) : Type 0 where
  pub code : Json
  pub status : index report "status" ≡ ok (text "passed")
  pub exit_status : index report "exit_code" ≡ ok code
  pub zero_code : json_eq code (natural 0) ≡ true

check_build-HasPassed : (report : Json) → check_build report ≡ ok tt → HasPassed report
unfolding check_build
check_build-HasPassed report h = >>=-ok (index report "status") _ h λ status s h1.
    guard-ok (json_eq status (text "passed")) (assertion "") _ h1 λ p h2.
      >>=-ok (index report "exit_code") _ h2 λ code c h3. record {
        code = code;
        status = s ∙ ap ok (json_eq-text status "passed" p);
        exit_status = c;
        zero_code = guard-eq-ok (json_eq code (natural 0)) _ h3;
      }

module _ {W : Type 0} (machine : Run.Computer W) where
  -- An APK that is verified: its path is below that of the builds and does not go up; what was copied of it has the digest and the
  -- size of the report, the phone has printed that digest behind it, and the copy, which is written, is a ZIP file with a manifest and no broken member.
  pub record IsVerified (run : String) (apk verified : Json) (host after : Host W) : Type 0 where
    pub copied : Host W
    pub summed : Host W
    pub raw : Bytes
    pub path : String
    pub content : Bytes
    pub line : String
    pub names : List String
    pub placed : index apk "path" ≡ ok (text path)
    pub below : starts_with path "/workspace/tinyagent-six-builds/" ≡ true
    pub inner : contains ".." (windows_parts path) ≡ false
    pub digits : index apk "sha256" ≡ ok (text (machine.digest content))
    pub size : Json
    pub counted : index apk "size" ≡ ok size
    pub sized : json_eq (natural (length content)) size ≡ true
    pub fetched : machine.adb (Run.copy_command machine path) host ≡ (ok content, copied)
    pub asked : machine.adb (Run.sum_command machine path) copied ≡ (ok raw, summed)
    pub decoded : machine.decode raw ≡ ok line
    pub ended : after ≡ (write (apk_file run path) content summed).1
    pub printed : first_word (words line) ≡ ok (machine.digest content)
    pub listed : machine.namelist content ≡ ok names
    pub manifest : contains "AndroidManifest.xml" names ≡ true
    pub sound : machine.testzip content ≡ ok none
    pub described : verified_json apk (machine.path_text (apk_file run path)) ≡ ok verified

  check_sum-ok :
      (path : String) (content : Bytes) (host after : Host W)
      → Run.check_sum machine path content host ≡ (ok tt, after)
      → (raw : Bytes) × (line : String) × (machine.adb (Run.sum_command machine path) host
          ≡ (ok raw, after))
        × (machine.decode raw ≡ ok line)
        × (first_word (words line) ≡ ok (machine.digest content))
  check_sum-ok path content host after h =
      bind-ok (machine.adb (Run.sum_command machine path)) _ host h λ printed between asked h1.
        lift-ok (machine.decode printed) _ between h1 λ line d h2.
          lift-ok (first_word (words line)) _ between h2 λ word w h3.
            let (e, last) =
              require-end (str_eq word (machine.digest content)) (assertion "") between after h3 in
            (
              printed,
              line,
              asked ∙ ap (λ (k : Host W). (ok printed, k)) last,
              d,
              w ∙ ap ok ((eq_iff word (machine.digest content)).0 e),
            )

  unbroken_none : (broken : Option String) → Run.is_unbroken broken ≡ true → broken ≡ none
  unbroken_none none h = refl
  unbroken_none (some name) h = cc

  check_zip-ok :
      (dest : FilePath) (host after : Host W)
      → Run.check_zip machine dest host ≡ (ok tt, after)
      → (archive : Bytes) × (names : List String) × (host.files dest ≡ some archive)
        × (machine.namelist archive ≡ ok names)
        × (contains "AndroidManifest.xml" names ≡ true)
        × (machine.testzip archive ≡ ok none)
        × (host ≡ after)
  check_zip-ok dest host after h = read-ok dest _ host h λ archive r h1.
      lift-ok (machine.namelist archive) _ host h1 λ names n h2.
        require-ok (contains "AndroidManifest.xml" names) (assertion "") _ host h2 λ m h3.
          lift-ok (machine.testzip archive) _ host h3 λ broken b h4.
            let (e, last) = require-end (Run.is_unbroken broken) (assertion "") host after h4 in
            (archive, names, r, n, m, b ∙ ap ok (unbroken_none broken e), last)

  apk_path-ok :
      (apk : Json) (path : String)
      → apk_path apk ≡ ok path
      → (index apk "path" ≡ ok (text path))
        × (starts_with path "/workspace/tinyagent-six-builds/" ≡ true)
        × (contains ".." (windows_parts path) ≡ false)
  unfolding apk_path
  apk_path-ok apk path h = >>=-ok (index apk "path") _ h λ found i h1.
      >>=-ok (as_path found) _ h1 λ given g h2.
        let below = starts_with given "/workspace/tinyagent-six-builds/" in
        let inner = not (contains ".." (windows_parts given)) in
        guard-ok (below && inner) (assertion "") _ h2 λ t h3.
          subst
            (λ p.
              (index apk "path" ≡ ok (text p))
              × (starts_with p "/workspace/tinyagent-six-builds/" ≡ true)
              × (contains ".." (windows_parts p) ≡ false))
            (ok_injective given path h3)
            (
              i ∙ ap ok (as_path-text found given g),
              &&_left below inner t,
              not-true (contains ".." (windows_parts given)) (&&_right below inner t),
            )

  check_copy-ok :
      (apk : Json) (content : Bytes)
      → check_copy machine.digest apk content ≡ ok tt
      → (size : Json) × (index apk "sha256" ≡ ok (text (machine.digest content)))
        × (index apk "size" ≡ ok size)
        × (json_eq (natural (length content)) size ≡ true)
  unfolding check_copy
  check_copy-ok apk content h = >>=-ok (index apk "sha256") _ h λ sha i h1.
      guard-ok (json_eq (text (machine.digest content)) sha) (assertion "") _ h1 λ e h2.
        >>=-ok (index apk "size") _ h2 λ size z h3. (
          size,
          i ∙ ap ok (text-json_eq (machine.digest content) sha e),
          z,
          guard-eq-ok (json_eq (natural (length content)) size) (assertion "") h3,
        )

  verify_apk-IsVerified :
      (run : String) (apk verified : Json) (host after : Host W)
      → Run.verify_apk machine run apk host ≡ (ok verified, after)
      → IsVerified run apk verified host after
  unfolding Run.verify_apk
  verify_apk-IsVerified run apk verified host after h = lift-ok (apk_path apk) _ host h λ path p h1.
      bind-ok (machine.adb (Run.copy_command machine path)) _ host h1 λ content copied fetched h2.
        lift-then-ok (check_copy machine.digest apk content) _ copied h2 λ c h3.
          then-ok (Run.check_sum machine path content) _ copied h3 λ summed s h4.
            let stored = (write (apk_file run path) content summed).1 in
            then-ok (Run.check_zip machine (apk_file run path)) _ stored h4 λ zipped z h5.
              let (placed, below, inner) = apk_path-ok apk path p in
              let (size, digits, counted, sized) = check_copy-ok apk content c in
              let (raw, line, asked, decoded, printed) =
                check_sum-ok path content copied summed s in
              let (archive, names, r, n, m, t, at) =
                check_zip-ok (apk_file run path) stored zipped z in
              let same : archive ≡ content =
                some_injective archive content
                  (sym r ∙ put-same (apk_file run path) (some content) summed.files) in
              let (described, end) =
                lift-end (verified_json apk (machine.path_text (apk_file run path))) verified zipped
                  after h5 in
              record {
                copied = copied;
                summed = summed;
                raw = raw;
                fetched = fetched;
                asked = asked;
                decoded = decoded;
                ended = sym (at ∙ end);
                path = path;
                content = content;
                line = line;
                names = names;
                size = size;
                placed = placed;
                below = below;
                inner = inner;
                digits = digits;
                counted = counted;
                sized = sized;
                printed = printed;
                listed = ap machine.namelist (sym same) ∙ n;
                manifest = m;
                sound = ap machine.testzip (sym same) ∙ t;
                described = described;
              }

  -- A run that is checked, from a host to the next, as its files were: the report has a build that passed, the log says so, and each of the APKs that the report lists, of
  -- which there is one at least, is verified, one behind the other; at the end the results are written.
  pub record IsChecked (files : Files) (run : String) (host after : Host W) : Type 0 where
    pub content : Bytes
    pub report : Json
    pub log : Bytes
    pub apks : List Json
    pub verified : List Json
    pub between : Host W
    pub named : is_run_name run ≡ true
    pub stands : files (folder_file run "result.json") ≡ some content
    pub loaded : machine.loads content ≡ ok report
    pub passed : HasPassed report
    pub logged : files (folder_file run "build.log") ≡ some log
    pub succeeded : bytes_in (codes "BUILD SUCCESSFUL") log ≡ true
    pub listed : apks_of report ≡ ok apks
    pub filled : Run.is_filled verified ≡ true
    pub rounds : AreGiven (IsVerified run) apks verified host between
    pub written :
        after
        ≡ (write
            (folder_file run "independent-apk-verification.json")
            (machine.dumps (result_json run verified))
            between).1

  pub verify_run-IsChecked :
      (run : String) (host after : Host W)
      → Run.verify_run machine run host ≡ (ok tt, after)
      → IsChecked host.files run host after
  unfolding Run.verify_run
  verify_run-IsChecked run host after h =
      require-ok (is_run_name run) (assertion "") _ host h λ named h1.
        read-ok (folder_file run "result.json") _ host h1 λ content r h2.
          lift-ok (machine.loads content) _ host h2 λ report l h3.
            lift-then-ok (check_build report) _ host h3 λ passed h4.
              read-ok (folder_file run "build.log") _ host h4 λ log g h5.
                require-ok (bytes_in (codes "BUILD SUCCESSFUL") log) (assertion "") _ host h5
                  λ b h6. lift-ok (apks_of report) _ host h6 λ apks a h7.
                    bind-ok (for_each (Run.verify_apk machine run) apks) _ host h7
                      λ verified between o h8.
                        require-ok (Run.is_filled verified) (assertion "") _ between h8 λ filled h9.
                          record {
                            content = content;
                            report = report;
                            log = log;
                            apks = apks;
                            verified = verified;
                            between = between;
                            named = named;
                            stands = r;
                            loaded = l;
                            passed = check_build-HasPassed report passed;
                            logged = g;
                            succeeded = b;
                            listed = a;
                            filled = filled;
                            rounds =
                                for_each-AreGiven (IsVerified run) (Run.verify_apk machine run)
                                  (verify_apk-IsVerified run) apks verified host between o;
                            written = ap (λ (p : Result (Unit {0}) × Host W). p.1) (sym h9);
                          }
