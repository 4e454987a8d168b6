-- ===== src/Release/Series.antt =====
-- What scripts/check-release.py establishes of the last three rounds and of the providers.
use tiny_agent.Base.{
  FilePath, ℕ, ◌+◌, ◌-◌, ◌≡◌, refl, subst, sym, ap, ap₂, ◌∙◌, String, true, inl, inr, none, some,
  List, [], ◌∷◌, ◌++◌, ltb, length, take, drop, length-drop, take-append-drop, Bool-cases, Bytes,
  Result, ok, value_error, ◌>>=◌, >>=-ok, >>-ok, guard-ok, arith,
}
use tiny_agent.Json.{
  Json, text, array, object, null, boolean, natural, negative, values_list, characters, index, get,
  is_true, elements, json_eq, json_eq-text,
}
use tiny_agent.Release.{Site, checked_file}
use tiny_agent.Release.Rounds.{follows, check_round, check_rounds}
use tiny_agent.Release.Evidence.{AreNew, AreNew-append, IsEvidence, checked_file-IsEvidence}
use tiny_agent.Release.Complete.{IsRound, check_round-IsRound}
use tiny_agent.Release.Check.{
  last_three, last_rounds, any_pass, any_provider, Report, check_log, check_response,
  check_providers,
}

follows-eq : (before n : ℕ) → follows (some before) n ≡ true → n ≡ before + 1
follows-eq before n h = ground arith

pub same_rounds : (p q : Report) → ◌≡◌ {A = Result Report} (ok p) (ok q) → q.rounds ≡ p.rounds
same_rounds p q h = let e : q ≡ p = cc in ap (λ (r : Report). r.rounds) e

pub any_provider-any_pass :
    (providers : Json) (listed : List Json)
    → any_provider providers ≡ ok true
    → elements providers ≡ ok listed
    → any_pass listed ≡ ok true
any_provider-any_pass providers listed h e = elim (Bool-cases (is_true providers)) [
  | inr f ↦ ground (arith, f)
  | inl t ↦
      let h' : (elements providers >>= any_pass) ≡ ok true = ground (arith, t) in
      >>=-ok (elements providers) _ h'
        λ found e1 h1. let same : found ≡ listed = cc in subst (λ l. any_pass l ≡ ok true) same h1
]

plus_two : (n : ℕ) → n + 1 + 1 ≡ n + 2
plus_two n = omega arith

-- The first parts of two results that are the same.
same_first : {A B : Type 0} (p q : A × B) → ◌≡◌ {A = Result (A × B)} (ok p) (ok q) → q.0 ≡ p.0
same_first p q h = let e : q ≡ p = cc in ap (λ r. r.0) e

pub three :
    {A : Type 0} (xs : List A) → length xs ≡ 3 → (a : A) × (b : A) × (c : A) × (xs ≡ a ∷ b ∷ c ∷ [])
three [] h = ground arith
three (a ∷ []) h = ground arith
three (a ∷ b ∷ []) h = ground arith
three (a ∷ b ∷ c ∷ []) h = (a, b, c, refl)
three (a ∷ b ∷ c ∷ d ∷ xs) h = ground arith

last_three-eq-ok :
    (rounds last : List Json)
    → last_three rounds ≡ ok last
    → (length last ≡ 3) × ((older : List Json) × (rounds ≡ older ++ last))
last_three-eq-ok rounds last h = elim (Bool-cases (ltb (length rounds) 3)) [
  | inl e ↦ ground (arith, e)
  | inr e ↦
      let same : drop (length rounds - 3) rounds ≡ last = ground (arith, e) in
      (
        subst (λ l. length l ≡ 3) same (ground (arith, length-drop (length rounds - 3) rounds)),
        (
          take (length rounds - 3) rounds,
          sym (take-append-drop (length rounds - 3) rounds)
              ∙ ap (λ l. take (length rounds - 3) rounds ++ l) same,
        ),
      )
]

pub last_rounds-eq-ok :
    (rounds : Json) (last : List Json)
    → last_rounds rounds ≡ ok last
    → (length last ≡ 3) × ((older : List Json) × (elements rounds ≡ ok (older ++ last)))
unfolding last_rounds elements
last_rounds-eq-ok (array xs) last h =
    let (e, (older, p)) = last_three-eq-ok (values_list xs) last h in (e, (older, ap ok p))
last_rounds-eq-ok (text s) last h =
    let (e, (older, p)) = last_three-eq-ok (characters s) last h in (e, (older, ap ok p))
last_rounds-eq-ok (object kvs) last h = ground arith
last_rounds-eq-ok null last h = cc
last_rounds-eq-ok (boolean b) last h = cc
last_rounds-eq-ok (natural n) last h = cc
last_rounds-eq-ok (negative n) last h = cc

module _ (digest : Bytes → String) (site : Site) where
  -- A provider whose response and tool execution passed, with its log.
  pub record IsProvider (providers : List Json) : Type 0 where
    pub before : List Json
    pub provider : Json
    pub after : List Json
    pub listed : providers ≡ before ++ (provider ∷ after)
    pub passed : get provider "response_and_tool" ≡ ok (text "pass")
    pub file : Json
    pub log : FilePath
    pub logged : index provider "log" ≡ ok file
    pub evidence : IsEvidence digest site file log

  -- What is checked of the provider at the head.
  check_response-IsProvider :
      (provider result : Json) (rest : List Json)
      → get provider "response_and_tool" ≡ ok result
      → json_eq result (text "pass") ≡ true
      → check_response digest site provider result ≡ ok tt
      → IsProvider (provider ∷ rest)
  unfolding check_log
  check_response-IsProvider provider result rest e p h =
      let h' : check_log digest site provider ≡ ok tt = ground (arith, p) in
      >>=-ok (index provider "log") _ h' λ file e1 h1.
        >>=-ok (checked_file digest site file) _ h1 λ log e2 _. record {
          before = [];
          provider = provider;
          after = rest;
          listed = refl;
          passed = e ∙ ap ok (json_eq-text result "pass" p);
          file = file;
          log = log;
          logged = e1;
          evidence = checked_file-IsEvidence digest site file log e2;
        }

  later : (p : Json) (ps : List Json) → IsProvider ps → IsProvider (p ∷ ps)
  later p ps h = record {
    before = p ∷ h.before;
    provider = h.provider;
    after = h.after;
    listed = ap (λ l. p ∷ l) h.listed;
    passed = h.passed;
    file = h.file;
    log = h.log;
    logged = h.logged;
    evidence = h.evidence;
  }

  pub check_providers-IsProvider :
      (ps : List Json)
      → any_pass ps ≡ ok true
      → check_providers digest site ps ≡ ok tt
      → IsProvider ps
  unfolding any_pass check_providers
  check_providers-IsProvider [] h k = cc
  check_providers-IsProvider (p ∷ ps) h k = >>=-ok (get p "name") _ k λ name e k1.
      guard-ok (is_true name) (value_error "Provider validation scope is required") _ k1 λ _ k2.
        >>=-ok (get p "scope") _ k2 λ scope e1 k3.
          guard-ok (is_true scope) (value_error "Provider validation scope is required") _ k3
            λ _ k4. >>=-ok (get p "response_and_tool") _ k4 λ result e2 k5.
              >>-ok (check_response digest site p result) _ k5 λ r k6.
                >>=-ok (get p "response_and_tool") _ h λ again e3 h1.
                  elim (Bool-cases (json_eq again (text "pass"))) [
                    | inl q ↦
                        let same : again ≡ result = cc in
                        check_response-IsProvider p result ps e2
                          (subst (λ v. json_eq v (text "pass") ≡ true) same q) r
                    | inr q ↦ later p ps (check_providers-IsProvider ps (ground (arith, q)) k6)
                  ]

  -- Three consecutive rounds, in which no journey shares its log with another.
  pub record AreRounds (candidate first second third : Json) (numbers : List ℕ) : Type 0 where
    pub n : ℕ
    pub logs_1 : List FilePath
    pub logs_2 : List FilePath
    pub logs_3 : List FilePath
    pub round_1 : IsRound digest site candidate first n logs_1
    pub round_2 : IsRound digest site candidate second (n + 1) logs_2
    pub round_3 : IsRound digest site candidate third (n + 2) logs_3
    pub distinct : AreNew [] (logs_1 ++ (logs_2 ++ logs_3))
    pub numbered : numbers ≡ n ∷ (n + 1) ∷ (n + 2) ∷ []

  pub check_rounds-AreRounds :
      (candidate a b c : Json) (checked : List ℕ × List FilePath)
      → check_rounds digest site candidate none [] (a ∷ b ∷ c ∷ []) ≡ ok checked
      → AreRounds candidate a b c checked.0
  unfolding check_rounds
  check_rounds-AreRounds candidate a b c checked h =
      >>=-ok (check_round digest site candidate none [] a) _ h λ one e h1.
        >>=-ok (check_rounds digest site candidate (some one.0) one.1 (b ∷ c ∷ [])) _ h1
          λ more r h2.
            >>=-ok (check_round digest site candidate (some one.0) one.1 b) _ r λ two e1 r1.
              >>=-ok (check_rounds digest site candidate (some two.0) two.1 (c ∷ [])) _ r1
                λ more1 s h3.
                  >>=-ok (check_round digest site candidate (some two.0) two.1 c) _ s λ three e2 s1.
                    let (logs_1, (ra, (fa, (na, ea)))) =
                      check_round-IsRound digest site candidate a none [] one e in
                    let (logs_2, (rb, (fb, (nb, eb)))) =
                      check_round-IsRound digest site candidate b (some one.0) one.1 two e1 in
                    let (logs_3, (rc, (fc, (nc, ec)))) =
                      check_round-IsRound digest site candidate c (some two.0) two.1 three e2 in
                    let second : two.0 ≡ one.0 + 1 = follows-eq one.0 two.0 fb in
                    let third : three.0 ≡ one.0 + 2 =
                      follows-eq two.0 three.0 fc ∙ (ap (λ k. k + 1) second ∙ plus_two one.0) in
                    record {
                      n = one.0;
                      logs_1 = logs_1;
                      logs_2 = logs_2;
                      logs_3 = logs_3;
                      round_1 = ra;
                      round_2 = subst (λ k. IsRound digest site candidate b k logs_2) second rb;
                      round_3 = subst (λ k. IsRound digest site candidate c k logs_3) third rc;
                      distinct = AreNew-append [] logs_1 (logs_2 ++ logs_3) na (
                          subst (λ u. AreNew u (logs_2 ++ logs_3)) ea
                            (AreNew-append one.1 logs_2 logs_3 nb
                              (subst (λ u. AreNew u logs_3) eb nc)));
                      numbered =
                          same_first _ checked h2
                          ∙ ap (λ l. one.0 ∷ l)
                              (same_first _ more h3
                                ∙ ap₂ (λ k l. k ∷ l) second
                                    (same_first _ more1 s1 ∙ ap (λ k. k ∷ []) third));
                    }
