-- ===== src/Client/Packages/Events.antt =====
-- A job is announced before it is submitted, it is submitted once, and from there on it is watched.
use tiny_agent.Base.{
  ℕ, zero, suc, ◌≡◌, refl, ap, ◌∙◌, String, Bool-cases, Option-cases, Result-cases, All, List, [],
  ◌∷◌, ◌++◌, starts_with, str_eq, inl, inr, append_assoc',
}
use tiny_agent.Client.{
  Event, announced, called, Request, get, package_job, reported, slept, Reply, Run, log, Call, send,
}
use tiny_agent.Client.Events.{Watches, Follows, Follows-refl, Follows-trans, Follows-one}
use tiny_agent.Client.Packages.Steps.{
  report_missing, report_known, woken, asked, poll_missing, poll_final, poll_failed, poll_next,
}
use tiny_agent.Client.Packages.{job_path, show, show_event, report, poll, is_active, submit}

module _ {W : Type 0} (path : String) where
  Follows-show : (output previous : String) (s : Run W) → Follows path s (show output previous s)
  unfolding show
  Follows-show output previous s = elim (Bool-cases (str_eq output previous)) [
    | inl e ↦ rw e (Follows-refl path s)
    | inr e ↦ rw e (
        Follows-one path s _ (show_event output previous) refl (Watches-show_event output previous))
  ]
    where
      Watches-show_event : (a b : String) → Watches path (show_event a b)
      Watches-show_event a b = elim (Bool-cases (starts_with a b)) [
        | inl e ↦ rw e tt
        | inr e ↦ rw e tt
      ]

  Follows-report : (result : Reply) (s : Run W) → Follows path s (report result s).1
  Follows-report result s = elim (Option-cases result.status) [
    | inl e ↦ rw (report_missing result s e) (Follows-one path s _ (reported result) refl tt)
    | inr (status, e) ↦
        rw (report_known result status s e) (Follows-one path s _ (reported result) refl tt)
  ]

module _ {W : Type 0} (call : Call W) (sleep : W → W) (name path : String) where
  Follows-send :
      (s : Run W) → Follows path s (send call name (get path) (woken call sleep name path s)).1
  unfolding send
  Follows-send s =
      Follows-trans path s (woken call sleep name path s) _ (Follows-one path s _ slept refl tt)
        (Follows-one path _ _ (called (get path)) refl refl)

  Follows-poll :
      (fuel : ℕ) (result : Reply) (previous : String) (s : Run W)
      → Follows path s (poll call sleep name fuel path result previous s).1
  Follows-poll zero result previous s = unfold poll in Follows-refl path s
  Follows-poll (suc fuel) result previous s =
      let s' = show result.output previous s in
      let shown = Follows-show path result.output previous s in
      elim (Option-cases result.status) [
        | inl e ↦ rw (poll_missing call sleep name path fuel result previous s e) shown
        | inr (status, e) ↦ elim (Bool-cases (is_active status)) [
          | inr a ↦
              rw (poll_final call sleep name path fuel result previous s status e a)
                (Follows-trans path s s' _ shown (Follows-report path result s'))
          | inl a ↦
              let (answer, s'') = asked call sleep name path fuel result previous s in
              let sent = Follows-trans path s s' s'' shown (Follows-send s') in
              elim (Result-cases answer) [
                | inr (x, f) ↦
                    rw (poll_failed call sleep name path fuel result previous s status x e a f) sent
                | inl (next, f) ↦
                    rw (poll_next call sleep name path fuel result previous s status next e a f)
                      (Follows-trans path s s'' _ sent (Follows-poll fuel next result.output s''))
              ]
        ]
      ]

-- The request that submits a job.
abbrev pub submission : String → List String → Request
submission job_id operation = record {
  method = "POST";
  path = "/packages/jobs";
  payload = package_job job_id operation;
}

module _ {W : Type 0} (call : Call W) (sleep : W → W) (name : String) where
  -- However a submission ends, its events are the announcement of the identifier, then one
  -- submission with it, then only what watches that job: reads of its path and output. The
  -- client never submits it again and never cancels it.
  pub submit-Follows :
      (fuel : ℕ) (operation : List String) (job_id : String) (s : Run W)
      → (rest : List Event) × ((submit call sleep name fuel operation job_id s).1.events
          ≡ s.events ++ (announced job_id ∷ called (submission job_id operation) ∷ rest))
        × All (Watches (job_path job_id)) rest
  unfolding submit send
  submit-Follows fuel operation job_id s =
      let r = submission job_id operation in
      let s0 = log (announced job_id) s in
      let s1 = (send call name r s0).1 in
      let order : s1.events ≡ s.events ++ (announced job_id ∷ called r ∷ []) =
        append_assoc' s.events (announced job_id ∷ []) (called r ∷ []) in
      elim (Result-cases (send call name r s0).0) [
        | inr (e, f) ↦ ([], rw (f, submit) order, tt)
        | inl (result, f) ↦
            let after = Follows-poll call sleep name (job_path job_id) fuel result "" s1 in
            (
              after.rest,
              rw (f, submit)
                  (after.events
                    ∙ (ap (λ es. es ++ after.rest) order
                        ∙ append_assoc' s.events (announced job_id ∷ called r ∷ []) after.rest)),
              after.watches,
            )
      ]
