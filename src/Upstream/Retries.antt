-- ===== src/Upstream/Retries.antt =====
-- How often `download` of scripts/collect_upstream.py tries.
use tiny_agent.Base.{
  ℕ, zero, suc, ◌+◌, ◌≤◌, ◌≡◌, refl, sym, ap, ◌∙◌, subst, String, Bool, true, false, Option, none,
  some, List, [], ◌∷◌, ◌++◌, append-nil', append_assoc', ◌==◌, if◌then◌else◌, Bool-cases, inl, inr,
  ◌⊎◌, Bytes, Result, ok, err, arith,
}
use tiny_agent.Upstream.{Response, Event, opened, slept, Run, Artifact}
use tiny_agent.Upstream.Download.{
  is_transient, reuse, fetch, present, download_once, sleep, attempts, download,
}

abbrev pub fails_in_transit : Result Artifact → Bool
fails_in_transit (ok a) = false
fails_in_transit (err x) = is_transient x

-- From the attempt with a number on: nothing is transferred; or one transfer ends the download, the
-- third or one that did not fail in transit; or, behind a wait of one second more than the
-- number, the next attempt follows, which is the third at most.
pub data Tries (url : String) (result : Result Artifact) : ℕ → List Event → Type 0 where
  reused : {n : ℕ} → Tries url result n []
  ended :
      {n : ℕ} → (fails_in_transit result ≡ false) ⊎ (n ≡ 2) → Tries url result n (opened url ∷ [])
  again :
      {n : ℕ} {log : List Event}
      → n + 1 ≤ 2
      → Tries url result (n + 1) log
      → Tries url result n (opened url ∷ slept (n + 1) ∷ log)

module _ (digest : Bytes → String) {W : Type 0} (urlopen : String → W → Result Response × W) where
  -- The events of an attempt: none for an artifact that is there, which is no failure in transit.
  pub record IsAttempt (url : String) (run : Run W) (tried : Result Artifact × Run W) : Type 0 where
    pub log : List Event
    pub events : tried.1.events ≡ run.events ++ log
    pub kind : (log ≡ opened url ∷ []) ⊎ ((log ≡ []) × (fails_in_transit tried.0 ≡ false))

  reuse-fails :
      (url name : String) (expected : Option String) (content : Bytes)
      → fails_in_transit (reuse digest urlopen url name expected content) ≡ false
  unfolding reuse
  reuse-fails url name expected content = ground arith

  download_once-IsAttempt :
      (url name : String) (expected : Option String) (refresh : Bool) (run : Run W)
      → IsAttempt url run (download_once digest urlopen url name expected refresh run)
  unfolding download_once fetch
  download_once-IsAttempt url name expected refresh run =
      go (present digest urlopen refresh (run.files name))
    where
      go :
          (found : Option Bytes)
          → (let p : Result Artifact × Run W = elim found [
            | some content ↦ (reuse digest urlopen url name expected content, run)
            | none ↦ fetch digest urlopen url name expected run
          ] in
              IsAttempt url run p)
      go none = record { log = opened url ∷ []; events = refl; kind = inl refl }
      go (some content) = record {
        log = [];
        events = sym (append-nil' run.events);
        kind = inr (refl, reuse-fails url name expected content);
      }

  -- The log of the rest of a download.
  pub record AreTries (url : String) (n : ℕ) (run : Run W) (p : Result Artifact × Run W)
      : Type 0 where
    pub log : List Event
    pub events : p.1.events ≡ run.events ++ log
    pub tries : Tries url p.0 n log

  -- The last attempt.
  last_attempt :
      (url : String) (n : ℕ) (run : Run W) (tried : Result Artifact × Run W)
      → IsAttempt url run tried
      → (fails_in_transit tried.0 ≡ false) ⊎ (n ≡ 2)
      → AreTries url n run tried
  last_attempt url n run tried h stop = go h.kind
    where
      go :
          (h.log ≡ opened url ∷ []) ⊎ ((h.log ≡ []) × (fails_in_transit tried.0 ≡ false))
          → AreTries url n run tried
      go (inl e) = record {
        log = h.log;
        events = h.events;
        tries = subst (λ l. Tries url tried.0 n l) (sym e) (ended stop);
      }
      go (inr (e, f)) = record {
        log = h.log;
        events = h.events;
        tries = subst (λ l. Tries url tried.0 n l) (sym e) reused;
      }

  -- An attempt that failed in transit, and the rest.
  next_attempt :
      (url : String) (n : ℕ) (run : Run W) (tried rest : Result Artifact × Run W)
      → IsAttempt url run tried
      → fails_in_transit tried.0 ≡ true
      → n + 1 ≤ 2
      → AreTries url (n + 1) (sleep digest urlopen (n + 1) tried.1) rest
      → AreTries url n run rest
  next_attempt url n run tried rest h f le more = go h.kind
    where
      go :
          (h.log ≡ opened url ∷ []) ⊎ ((h.log ≡ []) × (fails_in_transit tried.0 ≡ false))
          → AreTries url n run rest
      go (inr (e, g)) = cc
      go (inl e) = record {
        log = opened url ∷ slept (n + 1) ∷ more.log;
        events =
            more.events
            ∙ (append_assoc' tried.1.events (slept (n + 1) ∷ []) more.log
                ∙ (ap (λ l. l ++ (slept (n + 1) ∷ more.log))
                      (h.events ∙ ap (λ l. run.events ++ l) e)
                    ∙ append_assoc' run.events (opened url ∷ []) (slept (n + 1) ∷ more.log)));
        tries = again le more.tries;
      }

  one_attempt :
      (url : String) (n : ℕ) (run : Run W) (result : Result Artifact) (after : Run W)
      (rest : Result Artifact × Run W)
      → IsAttempt url run (result, after)
      → ((n ≡ 2) ⊎ ((n + 1 ≤ 2) × AreTries url (n + 1) (sleep digest urlopen (n + 1) after) rest))
      → (let p : Result Artifact × Run W = elim result [
        | ok artifact ↦ (ok artifact, after)
        | err x ↦
            if is_transient x then (if n == 2 then (err x, after) else rest) else (err x, after)
      ] in
          AreTries url n run p)
  one_attempt url n run (ok a) after rest h more = last_attempt url n run _ h (inl refl)
  one_attempt url n run (err x) after rest h (inl e) =
      let last = last_attempt url n run (err x, after) h (inr e) in
      elim (Bool-cases (is_transient x)) [
        | inl t ↦ let e' : (n == 2) ≡ true = ground arith in rw (t, e') last
        | inr f ↦ rw f last
      ]
  one_attempt url n run (err x) after rest h (inr (le, more)) = elim (Bool-cases (is_transient x)) [
    | inl t ↦
        let e : (n == 2) ≡ false = ground arith in
        rw (t, e) (next_attempt url n run (err x, after) rest h t le more)
    | inr f ↦ rw f (last_attempt url n run (err x, after) h (inl f))
  ]

  attempts-AreTries :
      (left n : ℕ) (url name : String) (expected : Option String) (refresh : Bool) (run : Run W)
      → left + n ≡ 2
      → AreTries url n run (attempts digest urlopen (suc left) n url name expected refresh run)
  unfolding attempts
  attempts-AreTries zero n url name expected refresh run size =
      one_attempt url n run _ _ _ (download_once-IsAttempt url name expected refresh run)
        (inl (ground arith))
  attempts-AreTries (suc left) n url name expected refresh run size =
      one_attempt url n run _ _ _ (download_once-IsAttempt url name expected refresh run) (
        inr (
          omega arith,
          attempts-AreTries left (n + 1) url name expected refresh
              (sleep digest urlopen (n + 1)
                (download_once digest urlopen url name expected refresh run).1)
              (omega arith),
        ))

  -- The events of a download are at most three openings of the address, with a wait of one and
  -- then of two seconds between them; what it raises is a failure in transit only if it is from
  -- the third.
  pub download-AreTries :
      (url name : String) (expected : Option String) (refresh : Bool) (run : Run W)
      → AreTries url 0 run (download digest urlopen url name expected refresh run)
  unfolding download
  download-AreTries url name expected refresh run =
      attempts-AreTries 2 0 url name expected refresh run refl
