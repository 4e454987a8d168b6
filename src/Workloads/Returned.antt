-- ===== src/Workloads/Returned.antt =====
-- The end of benchmarks/package-manager/checkout-workloads.py
use tiny_agent.Base.{
  ◌≡◌, refl, ap, ◌∙◌, ℕ, ◌<◌, leb, ◌==◌, str_eq, length, take, String, Bool, true, false, some,
  List, [], ◌∷◌, ◌++◌, All, Bytes, Exception, Result, ok, err, assertion, arith,
}
use tiny_agent.Json.{Json, index, elements}
use tiny_agent.Host.{Host, Exec, on_result, ◌>>=◌, ◌>>◌, pure, lift, require, attempt, or_missing}
use tiny_agent.Host.Rules.{put-same}
use tiny_agent.Workloads.{
  Phone, Workload, Report, read_workload, size_of, exit_code, reports_json, results_path,
  manifest_path,
}
use tiny_agent.Workloads.Run
use tiny_agent.Workloads.Reported.{size_of-elements}

-- A program returns from a state of the host.
abbrev pub Returns : {W A : Type 0} → Exec W A → Host W → Type 0
Returns {W} {A} run host = (a : A) × (after : Host W) × (run host ≡ (ok a, after))

module _ {W Time : Type 0} (phone : Phone W Time) (message : Exception → String)
    (dumps : Json → Bytes) where
  -- The disk was full: the results that were to be written are longer than what the disk has room for, and are there as far as it has.
  pub record IsFull (x : Exception) (after : Host W) : Type 0 where
    pub reports : List Report
    pub raised : x ≡ Run.disk_full phone message dumps
    pub room : phone.room after.world < length (dumps (reports_json reports))
    pub left :
        after.files results_path
        ≡ some (take (phone.room after.world) (dumps (reports_json reports)))

  abbrev pub IsEnd : {A : Type 0} → Result A → Host W → Type 0
  IsEnd (ok a) after = Unit
  IsEnd (err x) after = IsFull x after

  -- A program returns, or it ends with a full disk.
  abbrev pub Ends : {A : Type 0} → Exec W A → Host W → Type 0
  Ends {A} run host =
      (result : Result A) × (after : Host W) × (run host ≡ (result, after)) × IsEnd result after

  -- What goes on behind a step that ends so.
  bind-Ends :
      {A B : Type 0} (run : Exec W A) (next : A → Exec W B) (host : Host W)
      → Ends run host
      → ((a : A) (between : Host W) → run host ≡ (ok a, between) → Ends (next a) between)
      → Ends (run >>= next) host
  bind-Ends run next host (ok a, between, e, _) f =
      let (result, after, h, end) = f a between e in
      (result, after, ap (λ p. on_result p next) e ∙ h, end)
  bind-Ends run next host (err x, between, e, full) f =
      (err x, between, ap (λ p. on_result p next) e, full)

  return-Ends : {A : Type 0} (run : Exec W A) (host : Host W) → Returns run host → Ends run host
  return-Ends run host (a, after, h) = (ok a, after, h, tt)

  lift-Ends :
      {A B : Type 0} (result : Result A) (next : A → Exec W B) (host : Host W) (a : A)
      → result ≡ ok a
      → Ends (next a) host
      → Ends (lift result >>= next) host
  lift-Ends result next host a e (found, after, h, end) =
      (found, after, ap (λ r. on_result (r, host) next) e ∙ h, end)

  require-Ends :
      {B : Type 0} (test : Bool) (x : Exception) (next : Exec W B) (host : Host W)
      → test ≡ true
      → Ends next host
      → Ends (require test x >> next) host
  require-Ends true x next host e h = h
  require-Ends false x next host e h = cc

  save-Ends :
      (reports : List Report) (host : Host W) → Ends (Run.save phone message dumps reports) host
  save-Ends reports host = go (leb (length content) (phone.room host.world)) refl
    where
      content : Bytes
      content = dumps (reports_json reports)

      go :
          (b : Bool)
          → leb (length content) (phone.room host.world) ≡ b
          → Ends (Run.store_if phone message dumps b results_path content) host
      go true e = (ok tt, _, refl, tt)
      go false e = (
        err (Run.disk_full phone message dumps),
        _,
        refl,
        record {
          reports = reports;
          raised = refl;
          room = ground (arith, e);
          left = put-same results_path (some (take (phone.room host.world) content)) host.files;
        },
      )

  module _ (ticks : (host : Host W) → Returns phone.clock host) where
    abbrev pub IsValid : Json → Type 0
    IsValid entry =
        (workload : Workload) × (read_workload phone.to_lower phone.is_letter entry ≡ ok workload)

    check_workload-Ends :
        (reports : List Report) (entry : Json) (host : Host W)
        → IsValid entry
        → Ends (Run.check_workload phone message dumps reports entry) host
    unfolding Run.check_workload
    check_workload-Ends reports entry host (workload, w) =
        lift-Ends (read_workload phone.to_lower phone.is_letter entry) _ host workload w (
          bind-Ends phone.clock _ host (return-Ends phone.clock host (ticks host))
            λ began between c.
              bind-Ends
                (Run.save phone message dumps
                  (reports ++ (Run.started phone message dumps workload ∷ [])))
                (λ _. tail began) between (save-Ends _ between)
                λ _ saved s.
                  let tried = Run.check_out phone message dumps workload saved in
                  bind-Ends phone.clock (end_round began tried.0) tried.1
                    (return-Ends phone.clock tried.1 (ticks tried.1))
                    λ now last d.
                      bind-Ends
                        (Run.save phone message dumps (
                          reports
                          ++ (Run.finished phone message dumps workload tried.0 began now ∷ [])))
                        (λ _. pure (Run.finished phone message dumps workload tried.0 began now))
                        last (save-Ends _ last) λ _ end f. (ok _, end, refl, tt))
      where
        end_round : Time → Result String → Time → Exec W Report
        end_round began result now =
            Run.save phone message dumps
              (reports ++ (Run.finished phone message dumps workload result began now ∷ []))
            >> pure (Run.finished phone message dumps workload result began now)

        tail : Time → Exec W Report
        tail began = attempt (Run.check_out phone message dumps workload) >>= λ result.
            phone.clock >>= end_round began result

    check_workloads-Ends :
        (reports : List Report) (entries : List Json) (host : Host W)
        → All IsValid entries
        → Ends (Run.check_workloads phone message dumps reports entries) host
    unfolding Run.check_workloads
    check_workloads-Ends reports [] host valid = (ok reports, host, refl, tt)
    check_workloads-Ends reports (entry ∷ entries) host (v, valid) =
        bind-Ends (Run.check_workload phone message dumps reports entry) _ host
          (check_workload-Ends reports entry host v)
          λ report between c. check_workloads-Ends (reports ++ (report ∷ [])) entries between valid

    -- On the phone, with six entries that pass the checks, a lock that is free and a clock that answers, the program comes to its end with a
    -- status, whatever the calls of `git` do: no exception of theirs leaves it. The one exception that leaves it is that of a full disk, and
    -- then the results that it was writing are longer than the room on the disk, and stand there as far as there was room.
    pub checkout-Ends :
        (host : Host W) (content : Bytes) (manifest workloads : Json) (entries : List Json)
        → phone.provider ≡ some "fedora-local"
        → phone.machine ≡ "aarch64"
        → host.files manifest_path ≡ some content
        → phone.loads content ≡ ok manifest
        → index manifest "workloads" ≡ ok workloads
        → elements workloads ≡ ok entries
        → length entries ≡ 6
        → All IsValid entries
        → Returns phone.lock host
        → Ends (Run.checkout phone message dumps) host
    unfolding Run.checkout
    checkout-Ends host content manifest workloads entries p m f l w e six valid lock =
        require-Ends (Run.is_provider phone message dumps phone.provider) (assertion "") _ host
          (ap (Run.is_provider phone message dumps) p)
          (require-Ends (str_eq phone.machine "aarch64") (assertion "") _ host
            (ap (λ s. str_eq s "aarch64") m)
            (lift-Ends (or_missing (host.files manifest_path)) after_read host content
              (ap or_missing f)
              (lift-Ends (phone.loads content) _ host manifest l (
                lift-Ends (index manifest "workloads") _ host workloads w (
                  lift-Ends (size_of workloads) _ host 6
                    (size_of-elements workloads entries e ∙ ap ok six)
                    (bind-Ends phone.lock (λ _. lift (elements workloads) >>= check) host
                      (return-Ends phone.lock host lock)
                      λ done locked k. lift-Ends (elements workloads) check locked entries e (
                        bind-Ends (Run.check_workloads phone message dumps [] entries) _ locked
                          (check_workloads-Ends [] entries locked valid)
                          λ reports last c. (ok (exit_code reports), last, refl, tt))))))))
      where
        check : List Json → Exec W ℕ
        check found =
            Run.check_workloads phone message dumps [] found >>= λ reports. pure (exit_code reports)

        after_read : Bytes → Exec W ℕ
        after_read found = lift (phone.loads found) >>= λ listed.
            lift (index listed "workloads") >>= λ given. lift (size_of given) >>= λ number.
            require (number == 6) (assertion "")
            >> (phone.lock >> (lift (elements given) >>= check))
