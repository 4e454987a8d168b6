-- ===== src/Client/Android/Runs.antt =====
-- What a run of scripts/tinyagent-android.py sends, and how it ends.
use tiny_agent.Base.{
  ℕ, zero, suc, ◌≡◌, refl, ap, ◌∙◌, String, true, false, Bool-cases, Option-cases, Result-cases,
  none, some, str_eq, eq_iff, if◌then◌else◌, List, [], ◌∷◌, ◌++◌, All, append_assoc', inl, inr,
  Result, ok, err, Exception, arith,
}
use tiny_agent.Client.{
  Event, called, slept, reported, complained, Request, get, Reply, exits, raises, unfinished,
  Outcome, Run, log, Call, send,
}
use tiny_agent.Client.Events.{Watches, Follows, Follows-refl, Follows-trans, Follows-one}
use tiny_agent.Client.Android.{is_pending, is_system_exit, caught, watch, attempt}

module _ {W : Type 0} (call : Call W) (sleep : W → W) (name path : String) where
  abbrev asleep : Run W → Run W
  asleep s = record { world = sleep s.world; events = s.events ++ (slept ∷ []) }

  abbrev asked : Run W → Result Reply × Run W
  asked s = send call name (get path) (asleep s)

  module _ (fuel : ℕ) (row : Reply) (s : Run W) where
    abbrev round : Outcome × Run W
    round = watch call sleep name (suc fuel) path row s

    watch_missing : row.status ≡ none → round ≡ (exits 2, log complained s)
    unfolding watch caught
    watch_missing e = ground arith

    watch_final :
        (status : String)
        → row.status ≡ some status
        → is_pending status ≡ false
        → round ≡ (exits (if str_eq status "completed" then 0 else 1), log (reported row) s)
    unfolding watch
    watch_final status e p = ground arith

    watch_failed :
        (status : String) (x : Exception)
        → row.status ≡ some status
        → is_pending status ≡ true
        → (asked s).0 ≡ err x
        → round ≡ caught call sleep name x (asked s).1
    unfolding watch
    watch_failed status x e p f = ground arith

    watch_next :
        (status : String) (next : Reply)
        → row.status ≡ some status
        → is_pending status ≡ true
        → (asked s).0 ≡ ok next
        → round ≡ watch call sleep name fuel path next (asked s).1
    unfolding watch
    watch_next status next e p f = ground arith

  -- How a run ends: with 0 for a job that is reported completed, with 1 for one reported in
  -- another final state, with 2 and a complaint, or not at all. It raises nothing but what `sys.exit` raised.
  pub data Ends : Outcome → Run W → Type 0 where
    completed :
        {s : Run W} (row : Reply) (before : List Event)
        → row.status ≡ some "completed"
        → s.events ≡ before ++ (reported row ∷ [])
        → Ends (exits 0) s
    ended :
        {s : Run W} (row : Reply) (status : String) (before : List Event)
        → row.status ≡ some status
        → str_eq status "completed" ≡ false
        → is_pending status ≡ false
        → s.events ≡ before ++ (reported row ∷ [])
        → Ends (exits 1) s
    failed :
        {s : Run W} (before : List Event)
        → s.events ≡ before ++ (complained ∷ [])
        → Ends (exits 2) s
    passed_on : {s : Run W} (x : Exception) → is_system_exit x ≡ true → Ends (raises x) s
    running : {s : Run W} → Ends unfinished s

  -- The events `after` are those `before`, the request, and what only watches the job.
  abbrev pub IsFollowed : List Event → Request → List Event → Type 0
  IsFollowed before r after =
      (rest : List Event) × (after ≡ before ++ (called r ∷ rest)) × All (Watches path) rest

  record RunFacts (s : Run W) (end : Outcome × Run W) : Type 0 where
    follows : Follows path s end.1
    ends : Ends end.0 end.1

  Follows-asked : (s : Run W) → Follows path s (asked s).1
  unfolding send
  Follows-asked s =
      Follows-trans path s (asleep s) _ (Follows-one path s _ slept refl tt)
        (Follows-one path (asleep s) _ (called (get path)) refl refl)

  complain : (s : Run W) → RunFacts s (exits 2, log complained s)
  complain s = record {
    follows = Follows-one path s _ complained refl tt;
    ends = failed s.events refl;
  }

  caught_facts : (x : Exception) (s : Run W) → RunFacts s (caught call sleep name x s)
  unfolding caught
  caught_facts x s = elim (Bool-cases (is_system_exit x)) [
    | inl e ↦ rw e (record { follows = Follows-refl path s; ends = passed_on x e })
    | inr e ↦ rw e (complain s)
  ]

  finish_facts :
      (row : Reply) (status : String) (s : Run W)
      → row.status ≡ some status
      → is_pending status ≡ false
      → RunFacts s (exits (if str_eq status "completed" then 0 else 1), log (reported row) s)
  finish_facts row status s e p = record {
    follows = Follows-one path s _ (reported row) refl tt;
    ends = elim (Bool-cases (str_eq status "completed")) [
      | inl c ↦ rw c (completed row s.events (e ∙ ap some ((eq_iff status "completed").0 c)) refl)
      | inr c ↦ rw c (ended row status s.events e c p refl)
    ];
  }

  watch_facts :
      (fuel : ℕ) (row : Reply) (s : Run W) → RunFacts s (watch call sleep name fuel path row s)
  watch_facts zero row s =
      unfold watch in (record { follows = Follows-refl path s; ends = running })
  watch_facts (suc fuel) row s = elim (Option-cases row.status) [
    | inl e ↦ rw (watch_missing fuel row s e) (complain s)
    | inr (status, e) ↦ elim (Bool-cases (is_pending status)) [
      | inr p ↦ rw (watch_final fuel row s status e p) (finish_facts row status s e p)
      | inl p ↦ elim (Result-cases (asked s).0) [
        | inr (x, f) ↦
            rw (watch_failed fuel row s status x e p f)
              (after_asked s (caught call sleep name x (asked s).1) (caught_facts x (asked s).1))
        | inl (next, f) ↦
            rw (watch_next fuel row s status next e p f)
              (after_asked s _ (watch_facts fuel next (asked s).1))
      ]
    ]
  ]
    where
      after_asked : (s : Run W) (end : Outcome × Run W) → RunFacts (asked s).1 end → RunFacts s end
      after_asked s end k = record {
        follows = Follows-trans path s (asked s).1 end.1 (Follows-asked s) k.follows;
        ends = k.ends;
      }

  -- Behind the parser a run makes its one request, and from there on only reads the job; it
  -- submits nothing again and cancels nothing. Whatever the bridge does, no exception but that of `sys.exit` leaves the
  -- run: it ends as `Ends` says, or is still watching.
  pub attempt-Ends :
      (fuel : ℕ) (r : Request) (s : Run W)
      → let end = attempt call sleep name fuel path r s in
        Ends end.0 end.1 × IsFollowed s.events r end.1.events
  unfolding attempt send
  attempt-Ends fuel r s = elim (Result-cases (send call name r s).0) [
    | inr (x, f) ↦
        rw (f, attempt)
          (
            (caught_facts x (send call name r s).1).ends,
            (
              (caught_facts x (send call name r s).1).follows.rest,
              (caught_facts x (send call name r s).1).follows.events
                  ∙ append_assoc' s.events (called r ∷ [])
                      (caught_facts x (send call name r s).1).follows.rest,
              (caught_facts x (send call name r s).1).follows.watches,
            ),
          )
    | inl (row, f) ↦
        let s' = (send call name r s).1 in
        let facts = watch_facts fuel row s' in
        rw (f, attempt)
          (
            facts.ends,
            (
              facts.follows.rest,
              facts.follows.events ∙ append_assoc' s.events (called r ∷ []) facts.follows.rest,
              facts.follows.watches,
            ),
          )
  ]
