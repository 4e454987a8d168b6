-- ===== src/Client/Packages/Screen.antt =====
-- What `execute` prints of the job's log (scripts/tinyagent-packages.py).
use Prim.Native.String.{len, slice}
use text.Mathlib.TextLemmas.{append_assoc}
use tiny_agent.Base.{
  ℕ, zero, suc, ◌≡◌, refl, ap, subst, ◌⊎◌, false, sym, ◌∙◌, String, ◌<>◌, starts_with,
  starts_with_iff, slice-append_right, len-append, true, Bool-cases, Option-cases, Result-cases,
  some, str_eq, eq_iff, if◌then◌else◌, List, [], ◌∷◌, ◌++◌, inl, inr,
}
use tiny_agent.Client.{
  Event, announced, called, appended, refreshed, slept, reported, complained, Reply, get, exits,
  Run, Call, send,
}
use tiny_agent.Client.Packages.{refresh_header, show, show_event, report, poll, is_active}
use tiny_agent.Client.Packages.Steps.{
  report_known, woken, asked, poll_missing, poll_final, poll_failed, poll_next,
}

-- What was printed of the log, one text behind the other.
abbrev pub screen_from : String → List Event → String
screen_from text [] = text
screen_from text (appended more ∷ es) = screen_from (text <> more) es
screen_from text (refreshed more ∷ es) = screen_from (text <> more) es
screen_from text (announced id ∷ es) = screen_from text es
screen_from text (called r ∷ es) = screen_from text es
screen_from text (slept ∷ es) = screen_from text es
screen_from text (reported r ∷ es) = screen_from text es
screen_from text (complained ∷ es) = screen_from text es

abbrev pub screen : List Event → String
screen = screen_from ""

screen_from-append :
    (text : String) (es fs : List Event)
    → screen_from text (es ++ fs) ≡ screen_from (screen_from text es) fs
screen_from-append text [] fs = refl
screen_from-append text (appended more ∷ es) fs = screen_from-append (text <> more) es fs
screen_from-append text (refreshed more ∷ es) fs = screen_from-append (text <> more) es fs
screen_from-append text (announced id ∷ es) fs = screen_from-append text es fs
screen_from-append text (called r ∷ es) fs = screen_from-append text es fs
screen_from-append text (slept ∷ es) fs = screen_from-append text es fs
screen_from-append text (reported r ∷ es) fs = screen_from-append text es fs
screen_from-append text (complained ∷ es) fs = screen_from-append text es fs

-- A text that begins with another is that text and the part behind it.
append-slice :
    (output previous : String)
    → starts_with output previous ≡ true
    → previous <> slice output (len previous) (len output) ≡ output
append-slice output previous h =
    let (u, e) = (starts_with_iff output previous).0 h in
    rw (← e) (rw len-append (ap (λ t. previous <> t) (slice-append_right previous u)))

-- The screen ends with the output: it stands there alone, or behind the line of the last refresh.
abbrev pub EndsWith : String → String → Type 0
EndsWith shown output =
    (earlier : String) × (shown ≡ earlier <> output)
    × ((earlier ≡ "") ⊎ ((old : String) × (earlier ≡ old <> refresh_header)))

-- An end that is reported: the last event, what the screen showed, and the exit status.
pub record IsReported {W : Type 0} (code : ℕ) (t : Run W) : Type 0 where
  pub reply : Reply
  pub status : String
  pub before : List Event
  pub known : reply.status ≡ some status
  pub last : t.events ≡ before ++ (reported reply ∷ [])
  pub shown : EndsWith (screen before) reply.output
  pub code_of : code ≡ (if str_eq status "completed" then 0 else 1)

module _ {W : Type 0} where
  screen-show :
      (output previous : String) (s : Run W)
      → EndsWith (screen s.events) previous
      → EndsWith (screen (show output previous s).events) output
  unfolding show show_event
  screen-show output previous s (earlier, h, start) = elim (Bool-cases (str_eq output previous)) [
    | inl e ↦ rw e (earlier, h ∙ ap (λ t. earlier <> t) (sym ((eq_iff output previous).0 e)), start)
    | inr e ↦ rw e (
        subst (λ t. EndsWith t output)
          (sym (screen_from-append "" s.events (show_event output previous ∷ [])))
          (shows (Bool-cases (starts_with output previous))))
  ]
    where
      shows :
          (starts_with output previous ≡ true) ⊎ (starts_with output previous ≡ false)
          → EndsWith (screen_from (screen s.events) (show_event output previous ∷ [])) output
      shows (inl e) = rw e (
        earlier,
        ap (λ t. t <> slice output (len previous) (len output)) h
            ∙ (append_assoc earlier previous (slice output (len previous) (len output))
                ∙ ap (λ t. earlier <> t) (append-slice output previous e)),
        start,
      )
      shows (inr e) = rw e (
        screen s.events <> refresh_header,
        sym (append_assoc (screen s.events) refresh_header output),
        inr (screen s.events, refl),
      )

  report-IsReported :
      (result : Reply) (status : String) (s : Run W) (code : ℕ)
      → result.status ≡ some status
      → EndsWith (screen s.events) result.output
      → (report result s).0 ≡ exits code
      → IsReported code (report result s).1
  report-IsReported result status s code e h x = record {
    reply = result;
    status = status;
    before = s.events;
    known = e;
    last = rw (report_known result status s e);
    shown = h;
    code_of = cc (rw (report_known result status s e) at x);
  }

module _ {W : Type 0} (call : Call W) (sleep : W → W) (name path : String) where
  screen-asked :
      (s : Run W)
      → screen (send call name (get path) (woken call sleep name path s)).1.events ≡ screen s.events
  unfolding send
  screen-asked s =
      screen_from-append "" (s.events ++ (slept ∷ [])) (called (get path) ∷ [])
      ∙ screen_from-append "" s.events (slept ∷ [])

  -- The loop that starts with a screen that ends with `previous`, alone or behind the line of a refresh, and that ends with an exit status has
  -- reported the answer that ended it; what was printed of the log then ended with exactly that answer's output, alone or behind the line of the last
  -- refresh, and the status is 0 if the job is completed and 1 if not.
  pub poll-IsReported :
      (fuel : ℕ) (result : Reply) (previous : String) (s : Run W) (code : ℕ)
      → EndsWith (screen s.events) previous
      → (poll call sleep name fuel path result previous s).0 ≡ exits code
      → IsReported code (poll call sleep name fuel path result previous s).1
  poll-IsReported zero result previous s code h x = unfold poll in cc x
  poll-IsReported (suc fuel) result previous s code h x =
      let s' = show result.output previous s in
      let shown = screen-show result.output previous s h in
      elim (Option-cases result.status) [
        | inl e ↦ cc (rw (poll_missing call sleep name path fuel result previous s e) at x)
        | inr (status, e) ↦ elim (Bool-cases (is_active status)) [
          | inr a ↦
              let step = poll_final call sleep name path fuel result previous s status e a in
              rw step (report-IsReported result status s' code e shown (rw step at x))
          | inl a ↦
              let (answer, s'') = asked call sleep name path fuel result previous s in
              elim (Result-cases answer) [
                | inr (y, f) ↦ cc (
                    rw (poll_failed call sleep name path fuel result previous s status y e a f) at
                      x)
                | inl (next, f) ↦
                    let step =
                      poll_next call sleep name path fuel result previous s status next e a f in
                    rw step (
                      poll-IsReported fuel next result.output s'' code
                        (subst (λ t. EndsWith t result.output) (sym (screen-asked s')) shown)
                        (rw step at x))
              ]
        ]
      ]
