-- ===== src/Workloads/Run.antt =====
-- The program of benchmarks/package-manager/checkout-workloads.py
use tiny_agent.Base.{
  FilePath, os_error, take, length, leb, ℕ, ltb, ◌==◌, str_eq, strip, ◌<>◌, String, Bool, true,
  false, Option, none, some, List, [], ◌∷◌, ◌++◌, Bytes, Exception, Result, ok, err, assertion,
  runtime_error,
}
use tiny_agent.Json.{Json, index, elements}
use tiny_agent.Host.{
  ExitCode, is_success, code_text, Exec, ◌>>=◌, ◌>>◌, pure, lift, require, read, exists, write,
  attempt,
}
use tiny_agent.Workloads

-- The phone, `str` of an exception, and the writer of JSON.
module _ {W Time : Type 0} (phone : Workloads.Phone W Time) (message : Exception → String)
    (dumps : Json → Bytes) where
  -- `path.write_text(…)`: on a full disk it raises, and what there was room for is written.
  abbrev pub disk_full : Exception
  disk_full = os_error "No space left on device"

  abbrev pub store_if : Bool → FilePath → Bytes → Exec W (Unit {0})
  store_if true path content host = write path content host
  store_if false path content host =
      (err disk_full, (write path (take (phone.room host.world) content) host).1)

  abbrev pub store : FilePath → Bytes → Exec W (Unit {0})
  store path content host =
      store_if (leb (length content) (phone.room host.world)) path content host

  abbrev pub save : List Workloads.Report → Exec W (Unit {0})
  save reports = store Workloads.results_path (dumps (Workloads.reports_json reports))

  -- `open('ab')`
  abbrev pub touch : String → Bool → Exec W (Unit {0})
  touch name true = pure tt
  touch name false = write (Workloads.log_path name) []

  abbrev pub check_code : ExitCode → Exec W (Unit {0})
  check_code code =
      require (is_success code)
        (runtime_error ("git exit=" <> (code_text code <> "; inspect checkout log")))

  abbrev pub git : String → List String → Exec W (Unit {0})
  git name args = phone.run (Workloads.log_path name) ("git" ∷ args) >>= check_code

  abbrev pub fetch : Workloads.Workload → Bool → Exec W (Unit {0})
  fetch workload true = pure tt
  fetch workload false =
      git workload.name ("init" ∷ Workloads.target_text workload.name ∷ [])
      >> (git workload.name (
            "-C"
            ∷ Workloads.target_text workload.name
            ∷ "remote"
            ∷ "add"
            ∷ "origin"
            ∷ workload.url
            ∷ [])
          >> (git workload.name (
                "-C"
                ∷ Workloads.target_text workload.name
                ∷ "fetch"
                ∷ "--depth=1"
                ∷ "origin"
                ∷ workload.commit
                ∷ [])
              >> git workload.name (
                  "-C"
                  ∷ Workloads.target_text workload.name
                  ∷ "checkout"
                  ∷ "--detach"
                  ∷ workload.commit
                  ∷ [])))

  abbrev pub head_command : Workloads.Workload → List String
  head_command workload =
      "git" ∷ "-C" ∷ Workloads.target_text workload.name ∷ "rev-parse" ∷ "HEAD" ∷ []

  abbrev pub submodule_command : Workloads.Workload → List String
  submodule_command workload =
      "git" ∷ "-C" ∷ Workloads.target_text workload.name ∷ "submodule" ∷ "status" ∷ []

  abbrev pub check_head : Workloads.Workload → Exec W (Unit {0})
  check_head workload = phone.output (head_command workload) >>= λ head.
      lift (phone.decode head) >>= λ actual.
      require (str_eq (strip actual) workload.commit)
        (assertion "Existing checkout differs; retained for inspection")

  abbrev pub list_submodules : Workloads.Workload → Exec W String
  list_submodules workload =
      phone.output (submodule_command workload) >>= λ listed. lift (phone.decode listed)

  -- The room on the disk, the log, and the checkout if there is none.
  abbrev pub prepare : Workloads.Workload → Exec W (Unit {0})
  prepare workload = phone.free >>= λ free.
      require (ltb Workloads.min_free free) (assertion "Less than 20 GiB free")
      >> (exists (Workloads.log_path workload.name)
          >>= touch workload.name
          >> (phone.has_directory (Workloads.target_text workload.name) >>= fetch workload))

  -- What stands in the `try` block.
  abbrev pub check_out : Workloads.Workload → Exec W String
  check_out workload = prepare workload >> (check_head workload >> list_submodules workload)

  abbrev pub status_after : Result String → Workloads.Status
  status_after (ok submodules) = Workloads.passed submodules
  status_after (err x) = Workloads.stopped (message x)

  abbrev pub started : Workloads.Workload → Workloads.Report
  started workload = record { workload = workload; status = Workloads.running; seconds = none }

  abbrev pub finished : Workloads.Workload → Result String → Time → Time → Workloads.Report
  finished workload result began now = record {
    workload = workload;
    status = status_after result;
    seconds = some (phone.seconds began now);
  }

  -- One round of the loop, behind the reports of the rounds before.
  unfoldable pub check_workload : List Workloads.Report → Json → Exec W Workloads.Report
  unfolding Workloads.read_workload
  check_workload reports entry =
      lift (Workloads.read_workload phone.to_lower phone.is_letter entry) >>= λ workload.
      phone.clock >>= λ began.
      save (reports ++ (started workload ∷ []))
      >> (attempt (check_out workload) >>= λ result. phone.clock >>= λ now.
          save (reports ++ (finished workload result began now ∷ []))
          >> pure (finished workload result began now))

  unfoldable pub check_workloads :
      List Workloads.Report → List Json → Exec W (List Workloads.Report)
  unfolding check_workload
  check_workloads reports [] = pure reports
  check_workloads reports (entry ∷ entries) =
      check_workload reports entry >>= λ report. check_workloads (reports ++ (report ∷ [])) entries

  abbrev pub is_provider : Option String → Bool
  is_provider none = false
  is_provider (some provider) = str_eq provider "fedora-local"

  -- The status that the program exits with.
  unfoldable pub checkout : Exec W ℕ
  unfolding index elements check_workloads
  checkout =
      require (is_provider phone.provider) (assertion "")
      >> (require (str_eq phone.machine "aarch64") (assertion "")
          >> (read Workloads.manifest_path >>= λ content. lift (phone.loads content) >>= λ manifest.
              lift (index manifest "workloads") >>= λ workloads.
              lift (Workloads.size_of workloads) >>= λ number.
              require (number == 6) (assertion "")
              >> (phone.lock
                  >> (lift (elements workloads) >>= λ entries.
                      check_workloads [] entries >>= λ reports.
                      pure (Workloads.exit_code reports)))))
