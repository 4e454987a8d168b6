-- ===== src/Proot/Described.antt =====
-- What the staging of scripts/stage-proot.py leaves of the native programs.
use tiny_agent.Base.{
  Dict, dict_put, dict_at, path_eq, bytes_eq, take, ℕ, ◌≡◌, refl, sym, ap, ◌∙◌, subst, String, Bool,
  true, false, Option, none, some, List, [], ◌∷◌, if◌then◌else◌, str_eq, eq_iff, Bytes, Result, ok,
  assertion, arith, Bool-cases, inl, inr, ◌⊎◌, ok_injective,
}
use tiny_agent.Json.{Json}
use tiny_agent.Host.{Files, Host, ◌>>◌, require, write, put}
use tiny_agent.Host.Rules.{bind-ok, then-ok, require-ok, lift-ok, pure-ok, put-same, put-other}
use tiny_agent.Sources.Notices.{Entry}
use tiny_agent.Proot.Rename.{rename_library}
use tiny_agent.Proot.Stage.{
  Outputs, library, cached, target_name, elf, stage_program, stage_target, stage_entries, promote,
}

dict_at-dict_put :
    {V : Type 0} (other key : String) (v : V) (d : Dict V)
    → dict_at other (dict_put key v d) ≡ (if str_eq other key then ok v else dict_at other d)
dict_at-dict_put other key v [] = refl
dict_at-dict_put other key v ((k, w) ∷ rest) =
    ground
      (arith, eq_iff key k, eq_iff other k, eq_iff other key, dict_at-dict_put other key v rest)

if-true : {A : Type 0} {b : Bool} (x y : A) → b ≡ true → (if b then x else y) ≡ x
if-true x y e = rw e refl

if-false : {A : Type 0} {b : Bool} (x y : A) → b ≡ false → (if b then x else y) ≡ y
if-false x y e = rw e refl

library-ne : (a b : String) → str_eq b a ≡ false → path_eq (library a) (library b) ≡ false
unfolding path_eq
library-ne a b h = ground (arith, eq_iff a b, eq_iff b a)

pub cached-library : (a b : String) → path_eq (cached a) (library b) ≡ false
unfolding path_eq
cached-library a b = refl

module _ (digest : Bytes → String) where
  -- Each digest is that of the program with this name.
  abbrev pub Described : Outputs → Files → Type 0
  Described outputs files =
      (name sha : String)
      → dict_at name outputs ≡ ok sha
      → (content : Bytes) × (files (library name) ≡ some content) × (digest content ≡ sha)

  put-Described :
      (name : String) (content : Bytes) (outputs : Outputs) (files : Files)
      → Described outputs files
      → Described (dict_put name (digest content) outputs) (put (library name) (some content) files)
  put-Described name content outputs files d other sha h =
      go (Bool-cases (str_eq other name))
        (sym (dict_at-dict_put other name (digest content) outputs) ∙ h)
    where
      go :
          (str_eq other name ≡ true) ⊎ (str_eq other name ≡ false)
          → (if str_eq other name then ok (digest content) else dict_at other outputs) ≡ ok sha
          → (found : Bytes) × (put (library name) (some content) files (library other) ≡ some found)
            × (digest found ≡ sha)
      go (inl e) k =
          let same : other ≡ name = (eq_iff other name).0 e in
          (
            content,
            subst (λ o. put (library name) (some content) files (library o) ≡ some content)
                (sym same) (put-same (library name) (some content) files),
            ok_injective (digest content) sha
                (sym (if-true (ok (digest content)) (dict_at other outputs) e) ∙ k),
          )
      go (inr e) k =
          let (found, f, s) =
            d other sha (sym (if-false (ok (digest content)) (dict_at other outputs) e) ∙ k) in
          (
            found,
            put-other (library name) (library other) (some content) files (library-ne name other e)
                ∙ f,
            s,
          )

  pub Described-eq :
      (outputs : Outputs) (files later : Files)
      → ((name : String) → later (library name) ≡ files (library name))
      → Described outputs files
      → Described outputs later
  Described-eq outputs files later e d name sha h =
      let (content, f, s) = d name sha h in (content, e name ∙ f, s)

  module _ {W : Type 0} (urlopen : String → ℕ → W → Result Bytes × W)
      (decode : Bytes → Result String) (untar : Bytes → Result (List Entry))
      (loads : Bytes → Result Json) where
    stage_program-Described :
        (outputs after : Outputs) (name : String) (original : Bytes) (host last : Host W)
        → Described outputs host.files
        → stage_program digest urlopen decode untar loads outputs name original host
          ≡ (ok after, last)
        → Described after last.files
    unfolding stage_program
    stage_program-Described outputs after name original host last d h =
        let renamed = rename_library original in
        then-ok
          (require (bytes_eq (take 4 original) elf) (assertion "") >> write (library name) renamed)
          _ host h
          λ between e h1. require-ok (bytes_eq (take 4 original) elf) (assertion "") _ host e λ _ w.
            let (same, same_host) =
              pure-ok (dict_put name (digest renamed) outputs) after between last h1 in
            subst (λ (o : Outputs). Described o last.files) same
              (subst (λ (k : Host W). Described (dict_put name (digest renamed) outputs) k.files)
                (ap (λ (p : Result (Unit {0}) × Host W). p.1) w ∙ same_host)
                (put-Described name renamed outputs host.files d))

    stage_target-Described :
        (outputs after : Outputs) (entry : Entry) (target : Option String) (host last : Host W)
        → Described outputs host.files
        → stage_target digest urlopen decode untar loads outputs entry target host
          ≡ (ok after, last)
        → Described after last.files
    stage_target-Described outputs after entry none host last d h =
        let (same, same_host) = pure-ok outputs after host last h in
        subst (λ (o : Outputs). Described o last.files) same
          (subst (λ (k : Host W). Described outputs k.files) same_host d)
    stage_target-Described outputs after entry (some name) host last d h =
        lift-ok entry.content _ host h
          λ original _ h1. stage_program-Described outputs after name original host last d h1

    pub stage_entries-Described :
        (entries : List Entry) (outputs after : Outputs) (host last : Host W)
        → Described outputs host.files
        → stage_entries digest urlopen decode untar loads entries outputs host ≡ (ok after, last)
        → Described after last.files
    unfolding stage_entries
    stage_entries-Described [] outputs after host last d h =
        let (same, same_host) = pure-ok outputs after host last h in
        subst (λ (o : Outputs). Described o last.files) same
          (subst (λ (k : Host W). Described outputs k.files) same_host d)
    stage_entries-Described (entry ∷ entries) outputs after host last d h =
        let target = if entry.is_file then target_name entry.name else none in
        bind-ok (stage_target digest urlopen decode untar loads outputs entry target) _ host h
          λ more between e h1.
            stage_entries-Described entries more after between last
              (stage_target-Described outputs more entry target host between d e) h1

    pub promote-Described :
        (replacements : List (String × Bytes)) (outputs after : Outputs) (host last : Host W)
        → Described outputs host.files
        → promote digest urlopen decode untar loads replacements outputs host ≡ (ok after, last)
        → Described after last.files
    unfolding promote
    promote-Described [] outputs after host last d h =
        let (same, same_host) = pure-ok outputs after host last h in
        subst (λ (o : Outputs). Described o last.files) same
          (subst (λ (k : Host W). Described outputs k.files) same_host d)
    promote-Described ((name, content) ∷ rest) outputs after host last d h =
        then-ok (write (library name) content) _ host h λ between e h1.
          promote-Described rest (dict_put name (digest content) outputs) after between last
            (subst (λ (k : Host W). Described (dict_put name (digest content) outputs) k.files)
              (ap (λ (p : Result (Unit {0}) × Host W). p.1) e)
              (put-Described name content outputs host.files d))
            h1
