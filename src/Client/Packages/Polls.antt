-- ===== src/Client/Packages/Polls.antt =====
-- The loop of `execute` ends when the bridge reports an end (scripts/tinyagent-packages.py).
use tiny_agent.Base.{
  ℕ, zero, suc, ◌<◌, ◌≡◌, ap, String, true, false, some, str_eq, if◌then◌else◌, Result, ok, arith,
}
use tiny_agent.Client.{Reply, get, exits, Run, Call, send}
use tiny_agent.Client.Packages.{show, poll, is_active}
use tiny_agent.Client.Packages.Steps.{report_known, asked, poll_final, poll_next}

module _ {W : Type 0} (call : Call W) (sleep : W → W) (name path : String) where
  -- From the answer `result` on, the bridge reports an end after at most `n` more polls.
  pub data Settles : ℕ → Reply → W → Type 0 where
    settled :
        {n : ℕ} {result : Reply} {w : W} (status : String)
        → result.status ≡ some status
        → is_active status ≡ false
        → Settles n result w
    goes_on :
        {n : ℕ} {result : Reply} {w : W} (status : String) (next : Reply) (w' : W)
        → result.status ≡ some status
        → is_active status ≡ true
        → call name (get path) (sleep w) ≡ (ok next, w')
        → Settles n next w'
        → Settles (suc n) result w

  world-show : (output previous : String) (s : Run W) → (show output previous s).world ≡ s.world
  unfolding show
  world-show output previous s = ground arith

  -- With more rounds than the bridge needs, the loop ends with an exit status and no exception.
  pub poll-exits :
      (n fuel : ℕ) (result : Reply) (previous : String) (s : Run W)
      → n < fuel
      → Settles n result s.world
      → (code : ℕ) × ((poll call sleep name fuel path result previous s).0 ≡ exits code)
  poll-exits n zero result previous s h settles = elim h [ ]
  poll-exits n (suc fuel) result previous s h (settled status e a) = (
    if str_eq status "completed" then 0 else 1,
    rw (poll_final call sleep name path fuel result previous s status e a)
        (rw (report_known result status (show result.output previous s) e)),
  )
  poll-exits (suc n) (suc fuel) result previous s h (goes_on status next w' e a c later) =
      let s' = show result.output previous s in
      let c' : call name (get path) (sleep s'.world) ≡ (ok next, w') =
        rw (world-show result.output previous s) c in
      let (answer, s'') = asked call sleep name path fuel result previous s in
      let f : answer ≡ ok next = unfold send in ap (λ (p : Result Reply × W). p.0) c' in
      let g : s''.world ≡ w' = unfold send in ap (λ (p : Result Reply × W). p.1) c' in
      rw (poll_next call sleep name path fuel result previous s status next e a f)
        (poll-exits n fuel next result.output s'' (omega arith) (rw g later))
