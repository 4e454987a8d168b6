-- ===== src/Build/Described.antt =====
-- The report of scripts/build-proot-candidate.py and scripts/build-proot-fchmodat2.py, and the files.
use tiny_agent.Base.{
  FilePath, file_name, ◌≡◌, refl, sym, ap, ◌∙◌, subst, ℕ, String, some, List, [], ◌∷◌, Bytes, ok,
}
use tiny_agent.Host.{Host, Exec, ◌>>=◌, read, for_each}
use tiny_agent.Host.Rules.{
  Reads, bind-Reads, for_each-Reads, Reads-eq, bind-ok, read-ok, pure-ok, AreRounds,
}
use tiny_agent.Proot.Stage.{library}
use tiny_agent.Build.{Config, Machine}
use tiny_agent.Build.Prepare.{source_archive, library_names, patch_file, sha}
use tiny_agent.Build.Compile.{loader, binary, compiler}
use tiny_agent.Build.Report.{Report, sha_as, sha_patch, sha_library, sha_output, read_report}

-- A loop that only reads: its rounds are all at one host.
for_each-Rounds :
    {W A B : Type 0} (R : A → B → Type 0) (f : A → Exec W B) (reads : (x : A) → Reads (f x))
    (host : Host W) (round : (x : A) (y : B) → f x host ≡ (ok y, host) → R x y) (xs : List A)
    (ys : List B) (after : Host W)
    → for_each f xs host ≡ (ok ys, after)
    → AreRounds R xs ys
unfolding for_each
for_each-Rounds R f reads host round [] ys after h =
    subst (AreRounds R []) (pure-ok [] ys host after h).0 tt
for_each-Rounds {W} R f reads host round (x ∷ xs) ys after h =
    bind-ok (f x) _ host h λ y between e h1. bind-ok (for_each f xs) _ between h1 λ rest last r h2.
      let same : host ≡ between = Reads-eq (f x) host between y (reads x) e in
      subst (AreRounds R (x ∷ xs)) (pure-ok (y ∷ rest) ys last after h2).0 (
        round x y (e ∙ ap (λ (k : Host W). (ok y, k)) (sym same)),
        for_each-Rounds R f reads host round xs rest last
            (subst (λ k. for_each f xs k ≡ (ok rest, last)) (sym same) r),
      )

module _ {W : Type 0} (config : Config) (machine : Machine W) where
  -- The digest is that of the file at the path.
  abbrev pub IsDigest : Host W → FilePath → String → Type 0
  IsDigest host path found =
      (content : Bytes) × (host.files path ≡ some content) × (found ≡ machine.digest content)

  -- The same, for digests with their fields.
  abbrev IsField : Host W → FilePath → String → String × String → Type 0
  IsField host path key (k, found) = (k ≡ key) × IsDigest host path found

  abbrev pub IsPatch : Host W → String × String → String × String → Type 0
  IsPatch host (key, name) = IsField host (patch_file name) key

  abbrev pub IsLibrary : Host W → String → String × String → Type 0
  IsLibrary host name = IsField host (library name) name

  abbrev pub IsOutput : Host W → FilePath → String × String → Type 0
  IsOutput host path = IsField host path (file_name path)

  pub record IsReport (host : Host W) (features : List String) (objects : ℕ) (report : Report)
      : Type 0 where
    pub source : IsDigest host source_archive report.source
    pub patches : AreRounds (IsPatch host) config.patches report.patches
    pub compiled : IsDigest host (compiler config machine) report.compiler
    pub script : IsDigest host ("scripts" ∷ config.script ∷ []) report.script
    pub counted : report.objects ≡ objects
    pub featured : report.features ≡ features
    pub dependencies : AreRounds (IsLibrary host) library_names report.dependencies
    pub outputs :
        AreRounds
          (IsOutput host)
          (binary config machine ∷ loader config machine ∷ [])
          report.outputs

  sha-Reads : (path : FilePath) → Reads (sha config machine path)
  sha-Reads path = bind-Reads (read path) _ (λ host. refl) λ content host. refl

  sha_as-Reads : (path : FilePath) (key : String) → Reads (sha_as config machine path key)
  sha_as-Reads path key = bind-Reads (sha config machine path) _ (sha-Reads path) λ found host. refl

  pub sha-IsDigest :
      (path : FilePath) (found : String) (host after : Host W)
      → sha config machine path host ≡ (ok found, after)
      → IsDigest host path found
  sha-IsDigest path found host after h =
      read-ok path _ host h
        λ content r h1. (content, r, sym (pure-ok (machine.digest content) found host after h1).0)

  sha_as-IsField :
      (path : FilePath) (key : String) (found : String × String) (host after : Host W)
      → sha_as config machine path key host ≡ (ok found, after)
      → IsField host path key found
  sha_as-IsField path key found host after h =
      bind-ok (sha config machine path) _ host h λ digest between e h1.
        subst (IsField host path key) (pure-ok (key, digest) found between after h1).0
          (refl, sha-IsDigest path digest host between e)

  -- The steps of a program that reads digests, with the rest of a proof as an argument.
  module _ {κ} {B : Type 0} {Goal : Type κ} where
    pub sha-ok :
        (path : FilePath) (next : String → Exec W B) (host : Host W) {end : B} {after : Host W}
        → (sha config machine path >>= next) host ≡ (ok end, after)
        → ((found : String) → IsDigest host path found → next found host ≡ (ok end, after) → Goal)
        → Goal
    sha-ok path next host {end} {after} h go =
        bind-ok (sha config machine path) next host h λ found between e h1.
          go found (sha-IsDigest path found host between e) (
            subst (λ k. next found k ≡ (ok end, after))
              (sym (Reads-eq (sha config machine path) host between found (sha-Reads path) e)) h1)

    loop-ok :
        {A : Type 0} (path : A → FilePath) (key : A → String) (xs : List A)
        (next : List (String × String) → Exec W B) (host : Host W) {end : B} {after : Host W}
        → (for_each (λ x. sha_as config machine (path x) (key x)) xs >>= next) host
          ≡ (ok end, after)
        → ((found : List (String × String))
            → AreRounds (λ x. IsField host (path x) (key x)) xs found
            → next found host ≡ (ok end, after)
            → Goal)
        → Goal
    loop-ok {A} path key xs next host {end} {after} h go =
        let round = λ (x : A). sha_as config machine (path x) (key x) in
        let reads = λ (x : A). sha_as-Reads (path x) (key x) in
        bind-ok (for_each round xs) next host h λ found between e h1.
          go found
            (for_each-Rounds (λ (x : A). IsField host (path x) (key x)) round reads host
              (λ x y. sha_as-IsField (path x) (key x) y host host) xs found between e)
            (subst (λ k. next found k ≡ (ok end, after))
              (sym
                (Reads-eq (for_each round xs) host between found (for_each-Reads round xs reads) e))
              h1)

  pub read_report-IsReport :
      (features : List String) (objects : ℕ) (report : Report) (host after : Host W)
      → read_report config machine features objects host ≡ (ok report, after)
      → IsReport host features objects report
  unfolding read_report
  read_report-IsReport features objects report host after h =
      sha-ok source_archive _ host h λ source s h1.
        loop-ok (λ (p : String × String). patch_file p.1) (λ p. p.0) config.patches _ host h1
          λ patches p h2. sha-ok (compiler config machine) _ host h2 λ compiled c h3.
            sha-ok ("scripts" ∷ config.script ∷ []) _ host h3 λ script t h4.
              loop-ok library (λ name. name) library_names _ host h4
                λ dependencies d h5.
                  loop-ok (λ path. path) file_name
                    (binary config machine ∷ loader config machine ∷ []) _ host h5
                    λ outputs o h6.
                      subst (IsReport host features objects) (pure-ok _ report host after h6).0
                        (record {
                          source = s;
                          patches = p;
                          compiled = c;
                          script = t;
                          counted = refl;
                          featured = refl;
                          dependencies = d;
                          outputs = o;
                        })

  pub read_report-Reads :
      (features : List String) (objects : ℕ) → Reads (read_report config machine features objects)
  unfolding read_report
  read_report-Reads features objects =
      bind-Reads (sha config machine source_archive) _ (sha-Reads source_archive) λ source.
        bind-Reads (for_each (sha_patch config machine) config.patches) _
          (for_each-Reads (sha_patch config machine) config.patches
            λ p. sha_as-Reads (patch_file p.1) p.0)
          λ patches.
            bind-Reads (sha config machine (compiler config machine)) _
              (sha-Reads (compiler config machine))
              λ compiled.
                bind-Reads (sha config machine ("scripts" ∷ config.script ∷ [])) _
                  (sha-Reads ("scripts" ∷ config.script ∷ []))
                  λ script.
                    bind-Reads (for_each (sha_library config machine) library_names) _
                      (for_each-Reads (sha_library config machine) library_names
                        λ name. sha_as-Reads (library name) name)
                      λ dependencies.
                        let outputs = binary config machine ∷ loader config machine ∷ [] in
                        bind-Reads (for_each (sha_output config machine) outputs) _
                          (for_each-Reads (sha_output config machine) outputs
                            λ path. sha_as-Reads path (file_name path))
                          λ found host. refl
