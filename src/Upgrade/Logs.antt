-- ===== src/Upgrade/Logs.antt =====
-- What a program on the root adds to the list of published files: rules for its parts.
use tiny_agent.Base.{
  FilePath, ◌≡◌, sym, ap, ◌∙◌, List, [], ◌++◌, append-nil', append_assoc', inl, inr, Bytes, ok,
  Result-cases,
}
use tiny_agent.Upgrade.{Root, Exec, ◌>>=◌}

abbrev pub Log : Type 0
Log = List (FilePath × Bytes)

module _ {ℓ} {A : Type ℓ} where
  -- From `root` on, `run` publishes files that meet `Q`, whether it returns or raises.
  pub record Logs {κ} (root : Root) (run : Exec A) (Q : Log → Type κ) : Type κ where
    pub log : Log
    pub published : (run root).0.published ≡ root.published ++ log
    pub meets : Q log

  pub Logs-same {κ} :
      (root : Root) (run : Exec A) (Q : Log → Type κ)
      → (run root).0.published ≡ root.published
      → Q []
      → Logs root run Q
  Logs-same root run Q e q = record {
    log = [];
    published = e ∙ sym (append-nil' root.published);
    meets = q;
  }

  pub Logs-weaken {κ ι} :
      (root : Root) (run : Exec A) (Q : Log → Type κ) (R : Log → Type ι)
      → Logs root run Q
      → ((l : Log) → Q l → R l)
      → Logs root run R
  Logs-weaken root run Q R h f = record {
    log = h.log;
    published = h.published;
    meets = f h.log h.meets;
  }

module _ {ℓ ℓ'} {A : Type ℓ} {B : Type ℓ'} where
  -- The rest of a block starts where its first part has returned.
  pub Logs-bind {κ ι} :
      (root : Root) (run : Exec A) (next : A → Exec B) (Q : Log → Type κ) (R : Log → Type ι)
      → Logs root run Q
      → ((l : Log) → Q l → R l)
      → ((a : A) (l : Log)
          → (run root).1 ≡ ok a
          → Q l
          → Logs (run root).0 (next a) (λ more. R (l ++ more)))
      → Logs root (run >>= next) R
  Logs-bind root run next Q R h stop go = elim (Result-cases (run root).1) [
    | inr (x, e) ↦ record { log = h.log; published = rw e h.published; meets = stop h.log h.meets }
    | inl (a, e) ↦
        let rest = go a h.log e h.meets in
        record {
          log = h.log ++ rest.log;
          published = rw e (
              rest.published
              ∙ (ap (λ l. l ++ rest.log) h.published
                  ∙ append_assoc' root.published h.log rest.log));
          meets = rest.meets;
        }
  ]

  -- A first part that publishes nothing.
  pub Logs-read {ι} :
      (root : Root) (run : Exec A) (next : A → Exec B) (R : Log → Type ι)
      → (run root).0 ≡ root
      → R []
      → ((a : A) → (run root).1 ≡ ok a → Logs root (next a) R)
      → Logs root (run >>= next) R
  Logs-read root run next R same q go = elim (Result-cases (run root).1) [
    | inr (x, e) ↦ Logs-same root (run >>= next) R (rw e (ap (λ (r : Root). r.published) same)) q
    | inl (a, e) ↦
        let rest = go a e in
        record { log = rest.log; published = rw e (rw same rest.published); meets = rest.meets }
  ]
