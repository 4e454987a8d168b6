-- ===== src/Proot/Promoted.antt =====
-- What it means that scripts/stage-proot.py returns.
use tiny_agent.Base.{
  dict_at, FilePath, parts, file_name, split, starts_with, contains, ℕ, ◌+◌, ◌*◌, leb, length, ◌≡◌,
  refl, sym, ap, ◌∙◌, subst, String, ◌<>◌, Bool, true, false, not, ◌&&◌, some, List, [], ◌∷◌, ltb,
  Bytes, Result, ok, err, assertion, is_some,
}
use tiny_agent.Json.{Json, text, object, index, items_of, set_of, same_set, json_eq, text-json_eq}
use tiny_agent.Host.{Files, Host, Exec, on_result, ◌>>◌, pure, lift, require, read, write, for_each}
use tiny_agent.Host.Rules.{
  bind-ok, then-ok, require-ok, require-end, lift-ok, lift-end, read-ok, pure-ok, put-other, Reads,
  bind-Reads, then-Reads, for_each-Reads, Reads-eq,
}
use tiny_agent.Sources.Notices.{Entry}
use tiny_agent.Proot.Archive.{ar_members, first_data}
use tiny_agent.Proot.Stage.{
  dict_keys, dict_fields, Outputs, library, cached, output_names, required_packages, promoted_names,
  relative_text, fetch, kept_fields, record_keys, stage_entries, package_bytes, package_content,
  stage_package, stage_packages, read_json, check_input, check_inputs, check_dependency,
  check_staged, read_replacement,
}
use tiny_agent.Proot.Inputs.{runtime_file}
use tiny_agent.Proot.Described.{cached-library, Described, Described-eq, stage_entries-Described}

module _ (digest : Bytes → String) {W : Type 0} (urlopen : String → ℕ → W → Result Bytes × W)
    (decode : Bytes → Result String) (untar : Bytes → Result (List Entry))
    (loads : Bytes → Result Json) where
  fetch-files :
      (url : String) (host : Host W)
      → (fetch digest urlopen decode untar loads url host).1.files ≡ host.files
  unfolding fetch
  fetch-files url host = go (urlopen url (16 * 1024 * 1024 + 1) host.world)
    where
      checked : Bool → Bytes → Host W → Result Bytes × Host W
      checked b content = require b (assertion "Download exceeds staging limit") >> pure content

      checked-host : (b : Bool) (content : Bytes) (at : Host W) → (checked b content at).1 ≡ at
      checked-host true content at = refl
      checked-host false content at = refl

      go :
          (found : Result Bytes × W)
          → (on_result
              (found.0, record host { world = found.1 })
              (λ content.
                require
                  (leb (length content) (16 * 1024 * 1024))
                  (assertion "Download exceeds staging limit")
                >> pure content)).1.files
            ≡ host.files
      go (err x, world) = refl
      go (ok content, world) =
          ap (λ (k : Host W). k.files)
            (checked-host (leb (length content) (16 * 1024 * 1024)) content
              (record host { world = world }))

  package_bytes-files :
      (found : Bool) (relative : String) (path : FilePath) (host after : Host W) (content : Bytes)
      → package_bytes digest urlopen decode untar loads found relative path host
        ≡ (ok content, after)
      → after.files ≡ host.files
  package_bytes-files true relative path host after content h =
      ap (λ (p : Result Bytes × Host W). p.1.files) (sym h)
  package_bytes-files false relative path host after content h =
      ap (λ (p : Result Bytes × Host W). p.1.files) (sym h)
      ∙ fetch-files ("https://packages.termux.dev/apt/termux-main/" <> relative) host

  package_content-library :
      (document : Json) (host after : Host W) (content : Bytes)
      → package_content digest urlopen decode untar loads document host ≡ (ok content, after)
      → (name : String) → after.files (library name) ≡ host.files (library name)
  unfolding package_content
  package_content-library document host after content h name =
      lift-ok (index document "Filename") _ host h λ filename _ h1.
        lift-ok (relative_text filename) _ host h1 λ relative _ h2.
          let path = cached (file_name (parts relative)) in
          require-ok (not (starts_with relative "/") && not (contains ".." (split b'/' relative)))
            (assertion "") _ host h2
            λ _ h3.
              let found = is_some (host.files path) in
              bind-ok (package_bytes digest urlopen decode untar loads found relative path) _ host
                h3
                λ bytes s2 e2 h5. lift-ok (index document "SHA256") _ s2 h5 λ expected _ h6.
                  then-ok
                    (require (json_eq (text (digest bytes)) expected) (assertion "")
                      >> write path bytes)
                    _ s2 h6
                    λ s3 e3 h7.
                      require-ok (json_eq (text (digest bytes)) expected) (assertion "") _ s2 e3
                        λ _ w.
                          let at = library name in
                          let last : s3 ≡ after = (pure-ok bytes content s3 after h7).1 in
                          let stored : s3.files at ≡ s2.files at =
                            ap (λ (p : Result (Unit {0}) × Host W). p.1.files at) (sym w)
                            ∙ put-other path at (some bytes) s2.files
                                (cached-library (file_name (parts relative)) name) in
                          let read_there : s2.files at ≡ host.files at =
                            ap (λ (f : Files). f at)
                              (package_bytes-files found relative path host s2 bytes e2) in
                          ap (λ (k : Host W). k.files at) (sym last) ∙ (stored ∙ read_there)

  stage_package-Described :
      (document : Json) (outputs : Outputs) (staged : Json × Outputs) (host after : Host W)
      → Described digest outputs host.files
      → stage_package digest urlopen decode untar loads document outputs host ≡ (ok staged, after)
      → Described digest staged.1 after.files
  unfolding stage_package
  stage_package-Described document outputs staged host after d h =
      lift-ok (index document "Package") _ host h λ _ _ h1.
        bind-ok (package_content digest urlopen decode untar loads document) _ host h1
          λ content s1 e h2. lift-ok (kept_fields document record_keys) _ s1 h2 λ kept _ h3.
            lift-ok (first_data (ar_members decode content)) _ s1 h3 λ payload _ h4.
              lift-ok (untar payload) _ s1 h4 λ entries _ h5.
                bind-ok (stage_entries digest urlopen decode untar loads entries outputs) _ s1 h5
                  λ more s2 m h6.
                    let (same, last) = pure-ok (object kept, more) staged s2 after h6 in
                    subst (λ (p : Json × Outputs). Described digest p.1 after.files) same
                      (subst (λ (k : Host W). Described digest more k.files) last
                        (stage_entries-Described digest urlopen decode untar loads entries outputs
                          more s1 s2
                          (Described-eq digest outputs host.files s1.files
                            (package_content-library document host s1 content e) d)
                          m))

  pub stage_packages-Described :
      (documents : List Json) (outputs : Outputs) (staged : List Json × Outputs)
      (host after : Host W)
      → Described digest outputs host.files
      → stage_packages digest urlopen decode untar loads documents outputs host ≡ (ok staged, after)
      → Described digest staged.1 after.files
  unfolding stage_packages
  stage_packages-Described [] outputs staged host after d h =
      let (same, last) = pure-ok ([], outputs) staged host after h in
      subst (λ (p : List Json × Outputs). Described digest p.1 after.files) same
        (subst (λ (k : Host W). Described digest outputs k.files) last d)
  stage_packages-Described (document ∷ documents) outputs staged host after d h =
      bind-ok (stage_package digest urlopen decode untar loads document outputs) _ host h
        λ one s1 e h1.
          bind-ok (stage_packages digest urlopen decode untar loads documents one.1) _ s1 h1
            λ rest s2 r h2.
              let (same, last) = pure-ok (one.0 ∷ rest.0, rest.1) staged s2 after h2 in
              subst (λ (p : List Json × Outputs). Described digest p.1 after.files) same
                (subst (λ (k : Host W). Described digest rest.1 k.files) last
                  (stage_packages-Described documents one.1 rest s1 s2
                    (stage_package-Described document outputs one host s1 d e) r))

  check_input-Reads :
      (candidate : Json) (key : String) (path : FilePath)
      → Reads (check_input digest urlopen decode untar loads candidate key path)
  unfolding check_input
  check_input-Reads candidate key path =
      bind-Reads (read path) _ (λ host. refl)
        λ content. bind-Reads (lift (index candidate key)) _ (λ host. refl) λ expected host. refl

  check_dependency-Reads :
      (outputs : Outputs) (row : String × Json)
      → Reads (check_dependency digest urlopen decode untar loads outputs row)
  check_dependency-Reads outputs (name, expected) =
      bind-Reads (lift (dict_at name outputs)) _ (λ host. refl) λ found host. refl

  check_inputs-Reads :
      (candidate : Json) → Reads (check_inputs digest urlopen decode untar loads candidate)
  unfolding check_inputs
  check_inputs-Reads candidate =
      let check = check_input digest urlopen decode untar loads candidate in
      let two = check "patch_sha256" ("patches" ∷ "proot-exitkill.patch" ∷ []) in
      let three = check "fchmodat2_patch_sha256" ("patches" ∷ "proot-fchmodat2.patch" ∷ []) in
      let one = check "archive_sha256" ("runtime" ∷ "proot-fchmodat2-2.tar.gz" ∷ []) in
      bind-Reads (lift (index candidate "archive")) _ (λ host. refl)
        λ archive.
          then-Reads (require (json_eq archive (text "proot-fchmodat2-2.tar.gz")) (assertion ""))
            (one >> (two >> three)) (λ host. refl)
            (then-Reads one (two >> three) (check_input-Reads candidate _ _) (
              then-Reads two three (check_input-Reads candidate _ _)
                (check_input-Reads candidate _ _)))

  -- The digests of what was staged are the pinned ones, under the four names.
  pub record IsPinned (pinned : Json) (staged : Outputs) : Type 0 where
    pub expected : Json
    pub listed : index pinned "output_sha256" ≡ ok expected
    pub equal : json_eq (object (dict_fields staged)) expected ≡ true
    pub named : same_set (dict_keys staged) output_names ≡ true

  -- What is to be replaced is listed by the candidate below runtime/, as the two programs.
  pub record IsCandidate (files : Files) (promoted : Json) : Type 0 where
    pub content : Bytes
    pub candidate : Json
    pub names : List Json
    pub stored : files (runtime_file "proot-fchmodat2-2.json") ≡ some content
    pub loaded : loads content ≡ ok candidate
    pub listed : index candidate "outputs" ≡ ok promoted
    pub set : set_of promoted ≡ ok names
    pub two : same_set names promoted_names ≡ true

  pub IsCandidate-eq :
      (promoted : Json) (files after : Files)
      → after (runtime_file "proot-fchmodat2-2.json")
        ≡ files (runtime_file "proot-fchmodat2-2.json")
      → IsCandidate after promoted
      → IsCandidate files promoted
  IsCandidate-eq promoted files after same c = record {
    content = c.content;
    candidate = c.candidate;
    names = c.names;
    stored = sym same ∙ c.stored;
    loaded = c.loaded;
    listed = c.listed;
    set = c.set;
    two = c.two;
  }

  pub check_staged-IsPinned :
      (pinned : Json) (records : List Json) (staged : Outputs) (promoted : Json)
      (host after : Host W)
      → check_staged digest urlopen decode untar loads pinned records staged host
        ≡ (ok promoted, after)
      → (host ≡ after) × IsPinned pinned staged × IsCandidate host.files promoted
  unfolding check_staged
  check_staged-IsPinned pinned records staged promoted host after h =
      let rows : Exec W (List Json) = for_each (λ row. lift (index row "Package")) records in
      bind-ok rows _ host h λ names s1 e1 h1.
        then-ok
          (require (same_set names required_packages) (assertion "")
            >> require (same_set (dict_keys staged) output_names) (assertion ""))
          _ s1 h1
          λ s2 e2 h2. require-ok (same_set names required_packages) (assertion "") _ s1 e2 λ _ w.
            let (keys, at2) =
              require-end (same_set (dict_keys staged) output_names) (assertion "") s1 s2 w in
            lift-ok (index pinned "output_sha256") _ s2 h2 λ expected x h3.
              require-ok (json_eq (object (dict_fields staged)) expected)
                (assertion "Packaged native bytes differ from source pins") _ s2 h3
                λ j h4.
                  bind-ok
                    (read_json digest urlopen decode untar loads
                      ("runtime" ∷ "proot-fchmodat2-2.json" ∷ []))
                    _ s2 h4
                    λ candidate s3 e3 h5.
                      then-ok (check_inputs digest urlopen decode untar loads candidate) _ s3 h5
                        λ s4 e4 h7. lift-ok (index candidate "outputs") _ s4 h7 λ found o h8.
                          lift-ok (set_of found) _ s4 h8 λ names_set set h9.
                            require-ok (same_set names_set promoted_names) (assertion "") _ s4 h9
                              λ two h10.
                                lift-ok (index candidate "dependencies") _ s4 h10
                                  λ dependencies _ h11.
                                    lift-ok (items_of dependencies) _ s4 h11 λ items _ h12.
                                      bind-ok
                                        (for_each
                                          (check_dependency digest urlopen decode untar loads
                                            staged)
                                          items)
                                        _ s4 h12
                                        λ units s5 e5 h13.
                                          let row_reads : Reads rows =
                                            for_each-Reads (λ row. lift (index row "Package"))
                                              records (λ row at. refl) in
                                          let at1 = Reads-eq rows host s1 names row_reads e1 in
                                          (
                                            at1
                                                ∙ (at2
                                                    ∙ (Reads-eq
                                                          (read_json digest urlopen decode untar
                                                            loads
                                                            ("runtime" ∷ "proot-fchmodat2-2.json"
                                                            ∷ []))
                                                          s2 s3 candidate
                                                          (bind-Reads
                                                            (read (
                                                            "runtime" ∷ "proot-fchmodat2-2.json"
                                                            ∷ []))
                                                            _ (λ at. refl) (λ content at. refl))
                                                          e3
                                                        ∙ (Reads-eq
                                                            (check_inputs digest urlopen decode
                                                            untar loads candidate)
                                                            s3 s4 tt (check_inputs-Reads candidate)
                                                            e4
                                                            ∙ (Reads-eq
                                                            (for_each
                                                            (check_dependency digest urlopen decode
                                                            untar loads staged)
                                                            items)
                                                            s4 s5 units
                                                            (for_each-Reads _ items
                                                            (check_dependency-Reads staged))
                                                            e5
                                                            ∙ (pure-ok found promoted s5 after
                                                            h13).1)))),
                                            record {
                                              expected = expected;
                                              listed = x;
                                              equal = j;
                                              named = keys;
                                            },
                                            IsCandidate-eq promoted host.files s2.files
                                                (ap
                                                  (λ (k : Host W).
                                                    k.files (runtime_file "proot-fchmodat2-2.json"))
                                                  (sym (at1 ∙ at2)))
                                                (read-ok (runtime_file "proot-fchmodat2-2.json") _
                                                  s2 e3
                                                  λ content stored h14. record {
                                                    content = content;
                                                    candidate = candidate;
                                                    names = names_set;
                                                    stored = stored;
                                                    loaded =
                                                        (lift-end (loads content) candidate s2 s3
                                                          h14).0;
                                                    listed =
                                                        o
                                                        ∙ ap ok
                                                            (pure-ok found promoted s5 after h13).0;
                                                    set =
                                                        ap set_of (
                                                          sym
                                                            (pure-ok found promoted s5 after h13).0)
                                                        ∙ set;
                                                    two = two;
                                                  }),
                                          )

  -- A replacement is the content of the member, with the digest that the candidate lists under its name.
  abbrev pub IsReplacement : Json → Entry → String × Bytes → Type 0
  IsReplacement promoted entry found =
      (expected : Json) × (found.0 ≡ entry.name)
      × (entry.content ≡ ok found.1)
      × (index promoted entry.name ≡ ok expected)
      × (expected ≡ text (digest found.1))

  pub read_replacement-IsReplacement :
      (promoted : Json) (entry : Entry) (found : String × Bytes) (host after : Host W)
      → read_replacement digest urlopen decode untar loads promoted entry host ≡ (ok found, after)
      → IsReplacement promoted entry found
  unfolding read_replacement
  read_replacement-IsReplacement promoted entry found host after h =
      require-ok (entry.is_file && ltb entry.size (1024 * 1024)) (assertion "") _ host h λ _ h1.
        lift-ok entry.content _ host h1 λ content c h2.
          lift-ok (index promoted entry.name) _ host h2 λ expected x h3.
            require-ok (json_eq (text (digest content)) expected) (assertion "") _ host h3 λ j h4.
              subst (IsReplacement promoted entry)
                (pure-ok (entry.name, content) found host after h4).0
                (expected, refl, c, x, text-json_eq (digest content) expected j)
