-- ===== src/Client/Packages/Steps.antt =====
-- One round of the loop of `execute` (scripts/tinyagent-packages.py), as equations.
use tiny_agent.Base.{
  ℕ, suc, ◌≡◌, String, true, false, none, some, str_eq, ◌∷◌, [], ◌++◌, if◌then◌else◌, ok, err,
  Exception, key_error, Result, arith,
}
use tiny_agent.Client.{Reply, get, slept, reported, exits, raises, Run, log, Call, send, Outcome}
use tiny_agent.Client.Packages.{show, report, poll, is_active}

module _ {W : Type 0} where
  pub report_missing :
      (result : Reply) (s : Run W)
      → result.status ≡ none
      → report result s ≡ (raises (key_error "status"), log (reported result) s)
  unfolding report
  report_missing result s e = ground arith

  pub report_known :
      (result : Reply) (status : String) (s : Run W)
      → result.status ≡ some status
      → report result s
        ≡ (exits (if str_eq status "completed" then 0 else 1), log (reported result) s)
  unfolding report
  report_known result status s e = ground arith

module _ {W : Type 0} (call : Call W) (sleep : W → W) (name path : String) where
  abbrev pub woken : Run W → Run W
  woken s = record { world = sleep s.world; events = s.events ++ (slept ∷ []) }

  module _ (fuel : ℕ) (result : Reply) (previous : String) (s : Run W) where
    abbrev pub round : Outcome × Run W
    round = poll call sleep name (suc fuel) path result previous s

    pub poll_missing :
        result.status ≡ none → round ≡ (raises (key_error "status"), show result.output previous s)
    unfolding poll
    poll_missing e = ground arith

    pub poll_final :
        (status : String)
        → result.status ≡ some status
        → is_active status ≡ false
        → round ≡ report result (show result.output previous s)
    unfolding poll
    poll_final status e a = ground arith

    abbrev pub asked : Result Reply × Run W
    asked = send call name (get path) (woken (show result.output previous s))

    pub poll_failed :
        (status : String) (e : Exception)
        → result.status ≡ some status
        → is_active status ≡ true
        → asked.0 ≡ err e
        → round ≡ (raises e, asked.1)
    unfolding poll
    poll_failed status x e a f = ground arith

    pub poll_next :
        (status : String) (next : Reply)
        → result.status ≡ some status
        → is_active status ≡ true
        → asked.0 ≡ ok next
        → round ≡ poll call sleep name fuel path next result.output asked.1
    unfolding poll
    poll_next status next e a f = ground arith
