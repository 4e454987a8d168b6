-- ===== src/Snapshot/Rounds.antt =====
-- The rounds of the loop of scripts/export-private-source.py, and what each establishes and keeps.
use tiny_agent.Base.{
  parts, is_some, ◌≡◌, refl, String, true, Option, none, some, List, [], ◌∷◌, All, Bytes, Result,
  ok, err, assertion, guard-ok,
}
use tiny_agent.Snapshot.{is_inside, Tree, Checkout}
use tiny_agent.Snapshot.Gather.{or_missing}
use tiny_agent.Snapshot.Export.{
  Progress, is_allowed, read_original, copy_file, note, export_file, export_files,
}

-- What the asserts of a round have established when it goes on.
pub record IsOriginal (source : Checkout) (name : String) (content : Bytes) : Type 0 where
  pub inside : is_inside name ≡ true
  pub allowed : is_allowed name ≡ true
  pub found : source.files (parts name) ≡ some content

pub or_missing-eq :
    (found : Option Bytes) (content : Bytes) → or_missing found ≡ ok content → found ≡ some content
or_missing-eq none content h = cc
or_missing-eq (some old) content h = cc

read_original-IsOriginal :
    (source : Checkout) (name : String) (content : Bytes)
    → read_original source name ≡ ok content
    → IsOriginal source name content
unfolding read_original
read_original-IsOriginal source name content h =
    guard-ok (is_inside name) (assertion "") _ h λ i h1.
      guard-ok (is_allowed name) (assertion "") _ h1 λ a h2.
        guard-ok (is_some (source.files (parts name))) (assertion name) _ h2
          λ _ h3. record { inside = i; allowed = a; found = or_missing-eq _ content h3 }

module _ (digest : Bytes → String) (canonical : Tree → String → Bytes → Result Bytes)
    (source : Checkout) (P : Progress → Type 0) (Q : String → Type 0)
    (step : (name : String) (original : Bytes) (p : Progress)
      → Q name
      → IsOriginal source name original
      → P p
      → P
          (note digest canonical source name original
            (copy_file (parts name) original p.tree)
            p).1) where
  export_file-keeps :
      (name : String) (p : Progress)
      → Q name
      → P p
      → P (export_file digest canonical source name p).1
  unfolding export_file
  export_file-keeps name p q h = go (read_original source name) refl
    where
      go :
          (result : Result Bytes)
          → read_original source name ≡ result
          → P (
              let q : Result (Unit {0}) × Progress = elim result [
                | err x ↦ (err x, p)
                | ok original ↦
                    note digest canonical source name original
                      (copy_file (parts name) original p.tree)
                      p
              ] in
              q.1)
      go (err x) e = h
      go (ok original) e =
          step name original p q (read_original-IsOriginal source name original e) h

  either_round :
      (result : Result (Unit {0})) (after : Progress) (rest : Result (Unit {0}) × Progress)
      → P after
      → P rest.1
      → P (
          let q : Result (Unit {0}) × Progress = elim result [
            | err x ↦ (err x, after)
            | ok done ↦ rest
          ] in
          q.1)
  either_round (err x) after rest h k = h
  either_round (ok done) after rest h k = k

  -- What every round keeps, the loop keeps, also when it raises.
  pub export_files-keeps :
      (names : List String) (p : Progress)
      → All Q names
      → P p
      → P (export_files digest canonical source names p).1
  unfolding export_files
  export_files-keeps [] p qs h = h
  export_files-keeps (name ∷ names) p (q, qs) h =
      let k = export_file-keeps name p q h in
      either_round (export_file digest canonical source name p).0
        (export_file digest canonical source name p).1
        (export_files digest canonical source names (export_file digest canonical source name p).1)
        k (export_files-keeps names (export_file digest canonical source name p).1 qs k)
