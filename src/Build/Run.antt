-- ===== src/Build/Run.antt =====
-- `main` of scripts/build-proot-candidate.py and scripts/build-proot-fchmodat2.py
use tiny_agent.Base.{[], ◌∷◌, length}
use tiny_agent.Host.{Exec, ◌>>=◌, ◌>>◌, write}
use tiny_agent.Build.{Config, Machine, candidate, fchmodat2, work_file}
use tiny_agent.Build.Prepare.{prepare}
use tiny_agent.Build.Compile.{compile_all}
use tiny_agent.Build.Report.{report_json, read_report}

module _ {W : Type 0} where
  unfoldable pub build : Config → Machine W → Exec W (Unit {0})
  unfolding prepare compile_all read_report
  build config machine =
      prepare config machine
      >> (compile_all config machine >>= λ compiled.
          read_report config machine compiled.0 (length compiled.1) >>= λ report.
          write (work_file config ("build.json" ∷ [])) (machine.dumps (report_json report)))

  -- The two scripts are the same but for what `Config` has.
  unfoldable pub build_candidate : Machine W → Exec W (Unit {0})
  unfolding build
  build_candidate = build candidate

  unfoldable pub build_fchmodat2 : Machine W → Exec W (Unit {0})
  unfolding build
  build_fchmodat2 = build fchmodat2
