-- ===== src/Release/Gate.antt =====
-- The verdict of `check` in scripts/check-release.py
use tiny_agent.Base.{
  ℕ, ◌≡◌, subst, sym, ap, ◌∙◌, String, none, List, [], ◌∷◌, ◌++◌, Bytes, ok, value_error, >>=-ok,
  >>-ok, guard-ok,
}
use tiny_agent.Json.{Json, natural, index, elements, json_eq}
use tiny_agent.Release.{Site}
use tiny_agent.Release.Rounds.{check_rounds}
use tiny_agent.Release.Check.{
  last_rounds, check_device, any_provider, Report, check_apk, check_providers, check_documents,
  check_rest, check, documents,
}
use tiny_agent.Release.Series.{
  same_rounds, any_provider-any_pass, three, last_rounds-eq-ok, IsProvider,
  check_providers-IsProvider, AreRounds, check_rounds-AreRounds,
}

module _ (digest : Bytes → String) (site : Site) where
  -- Complete evidence: the last three rounds are consecutive and complete, and a provider has
  -- answered and used a tool.
  pub record IsComplete (candidate : Json) (report : Report) : Type 0 where
    pub rounds : Json
    pub older : List Json
    pub first : Json
    pub second : Json
    pub third : Json
    pub recorded : index candidate "rounds" ≡ ok rounds
    pub last_three_of : elements rounds ≡ ok (older ++ (first ∷ second ∷ third ∷ []))
    pub series : AreRounds digest site candidate first second third report.rounds
    pub providers : Json
    pub provided : List Json
    pub named : index candidate "providers" ≡ ok providers
    pub listed : elements providers ≡ ok provided
    pub tried : IsProvider digest site provided

  -- The parts of the rest, and the numbers that it reports.
  check_rest-eq-ok :
      (candidate : Json) (numbers : List ℕ) (report : Report)
      → check_rest digest site candidate numbers ≡ ok report
      → (report.rounds ≡ numbers)
        × ((providers : Json) × ((provided : List Json) × ((index candidate "providers"
                  ≡ ok providers)
                × ((elements providers ≡ ok provided) × IsProvider digest site provided))))
  unfolding check_rest
  check_rest-eq-ok candidate numbers report h =
      >>=-ok (index candidate "providers") _ h λ providers e h1.
        >>=-ok (any_provider providers) _ h1 λ passed e1 h2.
          guard-ok passed (value_error "No provider has a recorded response and tool execution") _
            h2
            λ p h3. >>=-ok (elements providers) _ h3 λ provided e2 h4.
              >>-ok (check_providers digest site provided) _ h4 λ checked h5.
                >>-ok (check_documents digest site candidate documents) _ h5 λ _ h6.
                  >>=-ok (index candidate "apk") _ h6 λ apk _ h7.
                    >>=-ok (index apk "sha256") _ h7 λ sha256 _ h8.
                      >>=-ok (index candidate "device") _ h8 λ device _ h9.
                        >>=-ok (index device "serial") _ h9 λ serial _ h10. (
                          same_rounds
                              (record { apk_sha256 = sha256; serial = serial; rounds = numbers })
                              report h10,
                          (
                            providers,
                            (
                              provided,
                              (
                                e,
                                (
                                  e2,
                                  check_providers-IsProvider digest site provided
                                      (any_provider-any_pass providers provided (e1 ∙ ap ok p) e2)
                                      checked,
                                ),
                              ),
                            ),
                          ),
                        )

  -- When the gate passes, the last three rounds are consecutive and each has every journey passed,
  -- on the APK and the device of the candidate; the log of every journey is a file in the
  -- candidate's directory with its checksum, and no two share one; and some provider has a
  -- recorded response and tool execution with such a log. The report has the rounds' numbers.
  pub check-IsComplete :
      (candidate : Json) (report : Report)
      → check digest site candidate ≡ ok report
      → IsComplete candidate report
  unfolding check
  check-IsComplete candidate report h = >>=-ok (index candidate "schema") _ h λ schema e h1.
      guard-ok (json_eq schema (natural 1)) (value_error "Unsupported evidence schema") _ h1 λ s h2.
        >>=-ok (index candidate "apk") _ h2 λ apk e1 h3.
          >>-ok (check_apk digest site apk) _ h3 λ a h4. >>-ok (check_device candidate) _ h4 λ d h5.
            >>=-ok (index candidate "rounds") _ h5 λ rounds e2 h6.
              >>=-ok (last_rounds rounds) _ h6 λ last e3 h7.
                >>=-ok (check_rounds digest site candidate none [] last) _ h7 λ checked e4 h8.
                  let (size, (older, whole)) = last_rounds-eq-ok rounds last e3 in
                  let (r1, r2, r3, split) = three last size in
                  let series = check_rounds-AreRounds digest site candidate r1 r2 r3 checked (
                    subst (λ l. check_rounds digest site candidate none [] l ≡ ok checked) split
                      e4) in
                  let (numbers, (providers, (provided, (named, (listed, tried))))) =
                    check_rest-eq-ok candidate checked.0 report h8 in
                  record {
                    rounds = rounds;
                    older = older;
                    first = r1;
                    second = r2;
                    third = r3;
                    recorded = e2;
                    last_three_of = whole ∙ ap (λ l. ok (older ++ l)) split;
                    series =
                        subst (λ l. AreRounds digest site candidate r1 r2 r3 l) (sym numbers)
                          series;
                    providers = providers;
                    provided = provided;
                    named = named;
                    listed = listed;
                    tried = tried;
                  }
