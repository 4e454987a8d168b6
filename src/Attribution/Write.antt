-- ===== src/Attribution/Write.antt =====
-- The reads and writes of scripts/stage-dnfast-rpm-notices.py
use tiny_agent.Base.{FilePath, String, List, [], ◌∷◌, Bytes, Result}
use tiny_agent.Json.{Json}
use tiny_agent.Host.{Exec, ◌>>=◌, ◌>>◌, pure, lift, read, write}
use tiny_agent.Staging.{TapeMember}
use tiny_agent.Attribution.Stage.{Payloads, notice_path, read_payloads}

abbrev pub report_path : FilePath
report_path = "runtime" ∷ "dnfast-rpm-notices.json" ∷ []

abbrev pub archive_path : FilePath
archive_path = "artifacts" ∷ "native-sources" ∷ "dnfast-rpm-notices.tar" ∷ []

unfoldable pub write_payloads : {W : Type 0} → Payloads → Exec W (Unit {0})
write_payloads [] = pure tt
write_payloads ((name, content) ∷ rest) = write (notice_path name) content >> write_payloads rest

module _ (digest : Bytes → String) (loads : Bytes → Result Json)
    (untar : Bytes → Result (List TapeMember)) {W : Type 0} where
  unfoldable pub stage_notices : Exec W (Unit {0})
  unfolding read_payloads write_payloads
  stage_notices = read report_path >>= λ content. lift (loads content) >>= λ report.
      read archive_path >>= λ archive.
      lift (read_payloads digest untar report archive) >>= write_payloads
