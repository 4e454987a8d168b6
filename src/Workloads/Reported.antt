-- ===== src/Workloads/Reported.antt =====
-- What the reports of benchmarks/package-manager/checkout-workloads.py say of the checkouts.
use tiny_agent.Base.{
  ◌≡◌, refl, sym, ap, ◌∙◌, subst, ℕ, suc, ◌==◌, str_eq, codes, length, String, true, some, List, [],
  ◌∷◌, ◌++◌, append_assoc', append-nil', Bytes, Exception, ok, assertion, ok_injective, arith,
}
use tiny_agent.Json.{
  Json, null, boolean, natural, negative, text, array, object, index, elements, characters,
}
use tiny_agent.Host.{Host, write}
use tiny_agent.Host.Rules.{bind-ok, then-ok, require-ok, lift-ok, read-ok, pure-ok, put-same}
use tiny_agent.Workloads.{
  Phone, Report, read_workload, size_of, exit_code, reports_json, results_path, manifest_path,
}
use tiny_agent.Workloads.Run
use tiny_agent.Workloads.Checked.{
  IsEntry, read_workload-IsEntry, IsExit, exit_code-IsExit, IsTrue, check_out-IsTrue, store-ok,
}

length-characters : (s : String) → length (characters s) ≡ length (codes s)
length-characters String.[] = refl
length-characters (String.◌∷◌ c s) = ap suc (length-characters s)

pub size_of-elements :
    (document : Json) (xs : List Json)
    → elements document ≡ ok xs
    → size_of document ≡ ok (length xs)
unfolding elements
size_of-elements (text s) xs h =
    ap ok (sym (length-characters s) ∙ ap length (ok_injective (characters s) xs h))
size_of-elements (array found) xs h = ap (λ r. ok (length r)) (ok_injective _ xs h)
size_of-elements (object found) xs h = ap (λ r. ok (length r)) (ok_injective _ xs h)
size_of-elements null xs h = cc
size_of-elements (boolean b) xs h = cc
size_of-elements (natural n) xs h = cc
size_of-elements (negative n) xs h = cc

module _ {W Time : Type 0} (phone : Phone W Time) (message : Exception → String)
    (dumps : Json → Bytes) where
  -- A round from a host to the next, behind the reports of the rounds before: the entry is well formed; the clock was read, and the results were
  -- written with the entry as running; then the checkout ran, and the status of the report says how; and the results were written with the report.
  pub record IsReported (reports : List Report) (entry : Json) (report : Report)
      (host after : Host W) : Type 0 where
    pub began : Time
    pub now : Time
    pub begun : Host W
    pub tried : Host W
    pub last : Host W
    pub is_entry : IsEntry phone.to_lower phone.is_letter entry report.workload
    pub clock : phone.clock host ≡ (ok began, begun)
    pub is_true :
        IsTrue phone message dumps report.workload report.status
          (write results_path
            (dumps
              (reports_json (reports ++ (Run.started phone message dumps report.workload ∷ []))))
            begun).1
          tried
    pub clock_again : phone.clock tried ≡ (ok now, last)
    pub timed : report.seconds ≡ some (phone.seconds began now)
    pub stored :
        after ≡ (write results_path (dumps (reports_json (reports ++ (report ∷ [])))) last).1

  -- The rounds, each from the host where the one before has ended.
  abbrev pub AreReported : List Report → List Json → List Report → Host W → Host W → Type 0
  AreReported reports [] [] host after = host ≡ after
  AreReported reports [] (report ∷ more) host after = ⊥
  AreReported reports (entry ∷ entries) [] host after = ⊥
  AreReported reports (entry ∷ entries) (report ∷ more) host after =
      (between : Host W) × IsReported reports entry report host between
      × AreReported (reports ++ (report ∷ [])) entries more between after

  check_workload-IsReported :
      (reports : List Report) (entry : Json) (report : Report) (host after : Host W)
      → Run.check_workload phone message dumps reports entry host ≡ (ok report, after)
      → IsReported reports entry report host after
  unfolding Run.check_workload
  check_workload-IsReported reports entry report host after h =
      lift-ok (read_workload phone.to_lower phone.is_letter entry) _ host h λ workload w h1.
        bind-ok phone.clock _ host h1 λ began begun c h2.
          let started = reports ++ (Run.started phone message dumps workload ∷ []) in
          then-ok (Run.save phone message dumps started) _ begun h2 λ saved s h3.
            let tried = Run.check_out phone message dumps workload saved in
            let same_start =
              store-ok phone message dumps results_path (dumps (reports_json started)) begun saved
                s in
            bind-ok phone.clock _ tried.1 h3 λ now last d h4.
              let finished = Run.finished phone message dumps workload tried.0 began now in
              then-ok (Run.save phone message dumps (reports ++ (finished ∷ []))) _ last h4
                λ end f h5.
                  let (e, same) = pure-ok finished report end after h5 in
                  subst (λ q. IsReported reports entry q host after) e
                    (record {
                      began = began;
                      now = now;
                      begun = begun;
                      tried = tried.1;
                      last = last;
                      is_entry =
                          read_workload-IsEntry phone.to_lower phone.is_letter entry workload w;
                      clock = c;
                      is_true =
                          subst
                            (λ k.
                              IsTrue phone message dumps workload
                                (Run.status_after phone message dumps tried.0) k tried.1)
                            same_start
                            (check_out-IsTrue phone message dumps workload tried.0 saved tried.1
                              refl);
                      clock_again = d;
                      timed = refl;
                      stored =
                          sym same
                          ∙ store-ok phone message dumps results_path
                              (dumps (reports_json (reports ++ (finished ∷ [])))) last end f;
                    })

  check_workloads-AreReported :
      (reports : List Report) (entries : List Json) (end : List Report) (host after : Host W)
      → Run.check_workloads phone message dumps reports entries host ≡ (ok end, after)
      → (more : List Report) × (end ≡ reports ++ more) × AreReported reports entries more host after
  unfolding Run.check_workloads
  check_workloads-AreReported reports [] end host after h =
      let (e, same) = pure-ok reports end host after h in
      ([], sym e ∙ sym (append-nil' reports), same)
  check_workloads-AreReported reports (entry ∷ entries) end host after h =
      bind-ok (Run.check_workload phone message dumps reports entry) _ host h λ report between c h1.
        let (more, e, rounds) =
          check_workloads-AreReported (reports ++ (report ∷ [])) entries end between after h1 in
        (
          report ∷ more,
          e ∙ append_assoc' reports (report ∷ []) more,
          (between, check_workload-IsReported reports entry report host between c, rounds),
        )

  -- The last of the rounds leaves all reports in the results.
  results_end :
      (reports : List Report) (entries : List Json) (more : List Report) (host after : Host W)
      → AreReported reports entries more host after
      → host.files results_path ≡ some (dumps (reports_json reports))
      → after.files results_path ≡ some (dumps (reports_json (reports ++ more)))
  results_end reports [] [] host after same r =
      ap (λ (k : Host W). k.files results_path) (sym same)
      ∙ (r ∙ ap (λ q. some (dumps (reports_json q))) (sym (append-nil' reports)))
  results_end reports [] (report ∷ more) host after rounds r = absurd rounds
  results_end reports (entry ∷ entries) [] host after rounds r = absurd rounds
  results_end reports (entry ∷ entries) (report ∷ more) host after (between, c, rounds) r =
      results_end (reports ++ (report ∷ [])) entries more between after rounds (results c)
      ∙ ap (λ q. some (dumps (reports_json q))) (append_assoc' reports (report ∷ []) more)
    where
      results :
          IsReported reports entry report host between
          → between.files results_path ≡ some (dumps (reports_json (reports ++ (report ∷ []))))
      results c =
          ap (λ (k : Host W). k.files results_path) c.stored
          ∙ put-same results_path (some (dumps (reports_json (reports ++ (report ∷ [])))))
              c.last.files

  saved_end :
      (entries : List Json) (reports : List Report) (host after : Host W)
      → ok 6 ≡ ok (length entries)
      → AreReported [] entries reports host after
      → after.files results_path ≡ some (dumps (reports_json reports))
  saved_end [] reports host after six rounds = cc
  saved_end (entry ∷ entries) [] host after six rounds = absurd rounds
  saved_end (entry ∷ entries) (report ∷ more) host after six (between, c, rounds) =
      results_end (report ∷ []) entries more between after rounds (
        ap (λ (k : Host W). k.files results_path) c.stored
        ∙ put-same results_path (some (dumps (reports_json (report ∷ [])))) c.last.files)

  -- When the program exits at its end, there is a report for each of the six entries of the manifest, in their order, from rounds that start where the
  -- lock was taken and end with the program, and the reports are what stands in the results then. A report is about its entry, which has a
  -- plain name, a commit of 40 hexadecimal digits and an address at one of the two sites; for one that has passed, `git` has named the
  -- commit as the head behind the preparation in its round, and then listed the submodules of the report; one that has failed has the text of what was raised
  -- in its round. The status of the exit is zero if all have passed, and one if some has not.
  pub checkout-AreRounds :
      (code : ℕ) (host after : Host W)
      → Run.checkout phone message dumps host ≡ (ok code, after)
      → (content : Bytes) × (manifest : Json) × (workloads : Json) × (entries : List Json)
        × (reports : List Report) × (locked : Host W) × (host.files manifest_path ≡ some content)
        × (phone.loads content ≡ ok manifest)
        × (index manifest "workloads" ≡ ok workloads)
        × (elements workloads ≡ ok entries)
        × (length entries ≡ 6)
        × (phone.lock host ≡ (ok tt, locked))
        × AreReported [] entries reports locked after
        × (after.files results_path ≡ some (dumps (reports_json reports)))
        × IsExit code reports
  unfolding Run.checkout
  checkout-AreRounds code host after h =
      require-ok (Run.is_provider phone message dumps phone.provider) (assertion "") _ host h
        λ _ h1. require-ok (str_eq phone.machine "aarch64") (assertion "") _ host h1 λ _ h2.
          read-ok manifest_path _ host h2 λ content r h3.
            lift-ok (phone.loads content) _ host h3 λ manifest l h4.
              lift-ok (index manifest "workloads") _ host h4 λ workloads i h5.
                lift-ok (size_of workloads) _ host h5 λ number n h6.
                  require-ok (number == 6) (assertion "") _ host h6 λ six h7.
                    then-ok phone.lock _ host h7 λ locked k h8.
                      lift-ok (elements workloads) _ locked h8 λ entries e h9.
                        bind-ok (Run.check_workloads phone message dumps [] entries) _ locked h9
                          λ reports last c h10.
                            let (ends, same) = pure-ok (exit_code reports) code last after h10 in
                            let counted : ok 6 ≡ ok (length entries) =
                              ap ok (sym (is_six number six))
                              ∙ (sym n ∙ size_of-elements workloads entries e) in
                            let (more, whole, rounds) =
                              check_workloads-AreReported [] entries reports locked last c in
                            let all_rounds : AreReported [] entries reports locked after =
                              subst (λ rs. AreReported [] entries rs locked after) (sym whole)
                                (subst (AreReported [] entries more locked) same rounds) in
                            (
                              content,
                              manifest,
                              workloads,
                              entries,
                              reports,
                              locked,
                              r,
                              l,
                              i,
                              e,
                              sym (ok_injective 6 (length entries) counted),
                              k,
                              all_rounds,
                              saved_end entries reports locked after counted all_rounds,
                              subst (λ n. IsExit n reports) ends (exit_code-IsExit reports),
                            )
    where
      is_six : (n : ℕ) → (n == 6) ≡ true → n ≡ 6
      is_six n h = ground arith
