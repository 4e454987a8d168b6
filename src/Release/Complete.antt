-- ===== src/Release/Complete.antt =====
-- What it means that scripts/check-release.py reports complete evidence.
use tiny_agent.Base.{
  FilePath, is_in, ℕ, ◌≤◌, ◌≡◌, subst, sym, ap, ◌∙◌, String, true, false, not, Option, some, List,
  [], ◌∷◌, Bytes, ok, value_error, >>=-ok, >>-ok, guard-ok, guard-eq-ok, arith,
}
use tiny_agent.Json.{Json, text, natural, index, json_eq, json_eq-text}
use tiny_agent.Release.{Site, journeys, positive, require, checked_file}
use tiny_agent.Release.Rounds.{
  follows, check_names, check_target, check_development, check_journey, check_journeys, check_round,
}
use tiny_agent.Release.Evidence.{noted, AreNew, IsEvidence, checked_file-IsEvidence, require-eq-ok}

positive-eq-some : (v : Json) {n : ℕ} → positive v ≡ some n → (v ≡ natural n) × (1 ≤ n)
positive-eq-some v h = ground arith

-- The candidate has the value under the key of one of its parts.
pub record HasPart (candidate : Json) (part key : String) (found : Json) : Type 0 where
  pub owner : Json
  pub owned : index candidate part ≡ ok owner
  pub held : index owner key ≡ ok found

-- The round names the APK and the device of the candidate.
pub record IsOnTarget (candidate run : Json) : Type 0 where
  pub run_sha256 : Json
  pub run_serial : Json
  pub sha256 : Json
  pub serial : Json
  pub named_apk : index run "apk_sha256" ≡ ok run_sha256
  pub named_device : index run "serial" ≡ ok run_serial
  pub apk : HasPart candidate "apk" "sha256" sha256
  pub device : HasPart candidate "device" "serial" serial
  pub same_apk : json_eq run_sha256 sha256 ≡ true
  pub same_device : json_eq run_serial serial ≡ true

check_target-IsOnTarget :
    (candidate run : Json) → check_target candidate run ≡ ok tt → IsOnTarget candidate run
unfolding check_target
check_target-IsOnTarget candidate run h = >>=-ok (index run "apk_sha256") _ h λ run_sha256 e h1.
    >>=-ok (index candidate "apk") _ h1 λ apk e1 h2.
      >>=-ok (index apk "sha256") _ h2 λ sha256 e2 h3.
        guard-ok (json_eq run_sha256 sha256) (value_error "Round targets a different APK or device")
          _ h3
          λ same h4. >>=-ok (index run "serial") _ h4 λ run_serial e3 h5.
            >>=-ok (index candidate "device") _ h5 λ device e4 h6.
              >>=-ok (index device "serial") _ h6 λ serial e5 h7. record {
                run_sha256 = run_sha256;
                run_serial = run_serial;
                sha256 = sha256;
                serial = serial;
                named_apk = e;
                named_device = e3;
                apk = record { owner = apk; owned = e1; held = e2 };
                device = record { owner = device; owned = e4; held = e5 };
                same_apk = same;
                same_device = guard-eq-ok (json_eq run_serial serial) _ h7;
              }

module _ (digest : Bytes → String) (site : Site) where
  -- The journey has passed, and its log is evidence.
  pub record HasPassed (found : Json) (journey : String) (log : FilePath) : Type 0 where
    pub result : Json
    pub file : Json
    pub reported : index found journey ≡ ok result
    pub status : index result "status" ≡ ok (text "pass")
    pub logged : index result "log" ≡ ok file
    pub evidence : IsEvidence digest site file log

  -- Each of the journeys has passed with the log at its place.
  unfoldable pub HavePassed : Json → List String → List FilePath → Type 0
  HavePassed found [] [] = Unit
  HavePassed found (journey ∷ rest) (log ∷ logs) =
      HasPassed found journey log × HavePassed found rest logs
  HavePassed found [] (log ∷ logs) = ⊥
  HavePassed found (journey ∷ rest) [] = ⊥

  check_journey-HasPassed :
      (found : Json) (journey : String) (used after : List FilePath)
      → check_journey digest site found journey used ≡ ok after
      → (log : FilePath) × (HasPassed found journey log
          × ((is_in log used ≡ false) × (after ≡ log ∷ used)))
  unfolding check_journey
  check_journey-HasPassed found journey used after h =
      >>=-ok (index found journey) _ h λ result e h1.
        >>=-ok (index result "status") _ h1 λ status e1 h2.
          guard-ok (json_eq status (text "pass")) (value_error "Unpassed journey") _ h2 λ p h3.
            >>=-ok (index result "log") _ h3 λ file e2 h4.
              >>=-ok (checked_file digest site file) _ h4 λ log e3 h5.
                guard-ok (not (is_in log used))
                  (value_error "Each journey execution needs its own evidence log") _ h5
                  λ fresh h6. >>-ok (check_development digest site journey result) _ h6 λ _ h7. (
                    log,
                    (
                      record {
                        result = result;
                        file = file;
                        reported = e;
                        status = e1 ∙ ap ok (json_eq-text status "pass" p);
                        logged = e2;
                        evidence = checked_file-IsEvidence digest site file log e3;
                      },
                      (ground (arith, fresh), cc),
                    ),
                  )

  check_journeys-HavePassed :
      (found : Json) (names : List String) (used after : List FilePath)
      → check_journeys digest site found names used ≡ ok after
      → (logs : List FilePath) × (HavePassed found names logs
          × (AreNew used logs × (after ≡ noted logs used)))
  unfolding check_journeys HavePassed AreNew noted
  check_journeys-HavePassed found [] used after h = ([], (tt, (tt, cc)))
  check_journeys-HavePassed found (journey ∷ rest) used after h =
      >>=-ok (check_journey digest site found journey used) _ h λ more e h1.
        let (log, (passed, (new, e1))) = check_journey-HasPassed found journey used more e in
        let (logs, (all, (fresh, e2))) = check_journeys-HavePassed found rest more after h1 in
        (
          log ∷ logs,
          ((passed, all), ((new, subst (λ u. AreNew u logs) e1 fresh), e2 ∙ ap (noted logs) e1)),
        )

  -- The round `n`: on the candidate's APK and device, with every journey passed.
  pub record IsRound (candidate run : Json) (n : ℕ) (logs : List FilePath) : Type 0 where
    pub number : index run "sequence" ≡ ok (natural n)
    pub counted : 1 ≤ n
    pub target : IsOnTarget candidate run
    pub found : Json
    pub listed : index run "journeys" ≡ ok found
    pub passed : HavePassed found journeys logs

  pub check_round-IsRound :
      (candidate run : Json) (previous : Option ℕ) (used : List FilePath) (one : ℕ × List FilePath)
      → check_round digest site candidate previous used run ≡ ok one
      → (logs : List FilePath) × (IsRound candidate run one.0 logs
          × ((follows previous one.0 ≡ true) × (AreNew used logs × (one.1 ≡ noted logs used))))
  unfolding check_round
  check_round-IsRound candidate run previous used one h =
      >>=-ok (index run "sequence") _ h λ sequence e h1.
        >>=-ok
          (require (positive sequence) (value_error "Round sequence must be a positive integer")) _
          h1
          λ n e1 h2.
            guard-ok (follows previous n)
              (value_error "Final three round numbers are not consecutive") _ h2
              λ fol h3. >>-ok (check_target candidate run) _ h3 λ target h4.
                >>=-ok (index run "journeys") _ h4 λ found e2 h5.
                  >>-ok (check_names found) _ h5 λ named h6.
                    >>=-ok (check_journeys digest site found journeys used) _ h6 λ after e3 h7.
                      >>=-ok (index run "resource_report") _ h7 λ report e4 h8.
                        >>=-ok (checked_file digest site report) _ h8 λ path e5 h9.
                          let (logs, (passed, (fresh, after_eq))) =
                            check_journeys-HavePassed found journeys used after e3 in
                          let (is_sequence, least) =
                            positive-eq-some sequence (require-eq-ok (positive sequence) _ e1) in
                          let same : one ≡ (n, after) = cc in
                          (
                            logs,
                            (
                              record {
                                number =
                                    e ∙ ap ok (is_sequence ∙ ap natural (sym (ap (λ p. p.0) same)));
                                counted = subst (λ k. 1 ≤ k) (sym (ap (λ p. p.0) same)) least;
                                target = check_target-IsOnTarget candidate run target;
                                found = found;
                                listed = e2;
                                passed = passed;
                              },
                              (
                                subst (λ k. follows previous k ≡ true) (sym (ap (λ p. p.0) same))
                                    fol,
                                (fresh, ap (λ p. p.1) same ∙ after_eq),
                              ),
                            ),
                          )
