-- ===== src/Build/Built.antt =====
-- What a build of scripts/build-proot-candidate.py and scripts/build-proot-fchmodat2.py has checked.
use tiny_agent.Base.{
  FilePath, ◌≡◌, sym, ap, ◌∙◌, subst, String, true, false, some, List, [], ◌∷◌, ◌++◌, ◌<◌, ltb,
  &&_left, &&_right, arith, All, str_eq, eq_iff, length, Bytes, ok, assertion,
}
use tiny_agent.Json.{Json, text, index, json_eq, text-json_eq}
use tiny_agent.Host.{Host, write, put, for_each}
use tiny_agent.Host.Rules.{bind-ok, then-ok, require-ok, require-end, lift-ok, read-ok, pure-ok}
use tiny_agent.Host.Chains.{AreGiven, for_each-AreGiven}
use tiny_agent.Checkout.{native_sources}
use tiny_agent.Proot.Stage.{library}
use tiny_agent.Build.{Config, Machine, Arg, word, at, common, source_file, work_file}
use tiny_agent.Build.Makefile.{object_names, are_distinct, are_complete, replace_object}
use tiny_agent.Build.Prepare
use tiny_agent.Build.Compile
use tiny_agent.Build.Report
use tiny_agent.Build.Described.{sha-ok, IsReport}

module _ {W : Type 0} (config : Config) (machine : Machine W) where
  -- The file at the path has the digest.
  abbrev pub HasDigest : Host W → FilePath → String → Type 0
  HasDigest host path expected =
      (content : Bytes) × (host.files path ≡ some content) × (machine.digest content ≡ expected)

  pub check_digest-HasDigest :
      (path : FilePath) (expected : String) (host after : Host W)
      → Prepare.check_digest config machine path expected host ≡ (ok tt, after)
      → HasDigest host path expected
  check_digest-HasDigest path expected host after h =
      sha-ok config machine path _ host h λ found (content, r, e) h1. (
        content,
        r,
        sym e
            ∙ (eq_iff found expected).0
                (require-end (str_eq found expected) (assertion "") host after h1).0,
      )

  -- The library of the app has the digest of the receipt.
  abbrev pub IsPinned : Host W → Json → String → Type 0
  IsPinned host pins name =
      (content : Bytes) × (outputs : Json) × (host.files (library name) ≡ some content)
      × (index pins "output_sha256" ≡ ok outputs)
      × (index outputs name ≡ ok (text (machine.digest content)))

  pub check_library-IsPinned :
      (pins : Json) (name : String) (host after : Host W)
      → Prepare.check_library config machine pins name host ≡ (ok tt, after)
      → IsPinned host pins name
  check_library-IsPinned pins name host after h =
      sha-ok config machine (library name) _ host h λ found (content, r, e) h1.
        lift-ok (index pins "output_sha256") _ host h1 λ outputs o h2.
          lift-ok (index outputs name) _ host h2 λ expected x h3. (
            content,
            outputs,
            r,
            o,
            x
                ∙ ap ok (
                    text-json_eq found expected
                      (require-end (json_eq (text found) expected) (assertion "") host after h3).0)
                ∙ ap (λ s. ok (text s)) e,
          )

  -- The inputs of a build: the sources and the headers have their pinned digests, and the libraries those of the receipt.
  pub record AreInputs (host : Host W) : Type 0 where
    pub receipt : Bytes
    pub pins : Json
    pub sources : HasDigest host Prepare.source_archive Prepare.source_digest
    pub headers :
        All (λ archive. HasDigest host (native_sources archive.0) archive.1) Prepare.header_archives
    pub received : host.files Prepare.staging_receipt ≡ some receipt
    pub parsed : machine.loads receipt ≡ ok pins
    pub libraries : All (IsPinned host pins) Prepare.library_names

  -- An object that was compiled: the compiler was run on the source of its name, with the object as its output.
  abbrev pub IsCompiled : String → Arg → Host W → Host W → Type 0
  IsCompiled name object host after =
      let path = Compile.join (work_file config ("objects" ∷ [])) name in
      (printed : Bytes) × (object ≡ at path)
      × (machine.tool
            (record {
              argv =
                  at (Compile.compiler config machine)
                  ∷ (common config
                      ++ (Compile.extra_flags config machine name
                          ++ (word "-c"
                              ∷ at
                                  (Compile.join (source_file config []) (replace_object false name))
                              ∷ word "-o"
                              ∷ at path
                              ∷ [])));
              cwd = config.work;
              input = [];
            })
            host
          ≡ (ok printed, after))

  perform-ok :
      (argv : List Arg) (host after : Host W)
      → Compile.perform config machine argv host ≡ (ok tt, after)
      → (printed : Bytes) × (machine.tool
            (record { argv = argv; cwd = config.work; input = [] })
            host
          ≡ (ok printed, after))
  perform-ok argv host after h =
      bind-ok (Compile.output_of config machine argv []) _ host h λ printed between t h1.
        (printed, t ∙ ap (λ (k : Host W). (ok printed, k)) (pure-ok tt tt between after h1).1)

  compile_object-IsCompiled :
      (name : String) (object : Arg) (host after : Host W)
      → Compile.compile_object config machine name host ≡ (ok object, after)
      → IsCompiled name object host after
  compile_object-IsCompiled name object host after h =
      let path = Compile.join (work_file config ("objects" ∷ [])) name in
      let argv : List Arg =
        at (Compile.compiler config machine)
        ∷ (common config
            ++ (Compile.extra_flags config machine name
                ++ (word "-c"
                    ∷ at (Compile.join (source_file config []) (replace_object false name))
                    ∷ word "-o"
                    ∷ at path
                    ∷ []))) in
      then-ok (Compile.perform config machine argv) _ host h λ between p h1.
        let (printed, t) = perform-ok argv host between p in
        let (same, end) = pure-ok (at path) object between after h1 in
        (printed, sym same, t ∙ ap (λ (k : Host W). (ok printed, k)) end)

  -- The program: its objects, distinct and more than sixty, are those of the makefile as it was; each was compiled, one behind the
  -- other, and they were linked.
  pub record IsProgram (names : List String) (host after : Host W) : Type 0 where
    pub content : Bytes
    pub makefile : String
    pub objects : List Arg
    pub between : Host W
    pub found : host.files (source_file config ("GNUmakefile" ∷ [])) ≡ some content
    pub read_there : machine.read_text content ≡ ok makefile
    pub listed : object_names machine.is_letter makefile ≡ ok names
    pub distinct : are_distinct names ≡ true
    pub more : 60 < length names
    pub compiled : AreGiven IsCompiled names objects host between
    pub linked :
        Compile.perform config machine (Compile.link_argv config machine objects) between
        ≡ (ok tt, after)

  build_program-IsProgram :
      (names : List String) (host after : Host W)
      → Compile.build_program config machine host ≡ (ok names, after)
      → IsProgram names host after
  unfolding Compile.build_program
  build_program-IsProgram names host after h =
      read-ok (source_file config ("GNUmakefile" ∷ [])) _ host h λ content r h1.
        lift-ok (machine.read_text content) _ host h1 λ makefile m h2.
          lift-ok (object_names machine.is_letter makefile) _ host h2 λ found o h3.
            require-ok (are_complete found) (assertion "") _ host h3 λ complete h4.
              bind-ok (for_each (Compile.compile_object config machine) found) _ host h4
                λ objects between c h5.
                  then-ok
                    (Compile.perform config machine (Compile.link_argv config machine objects)) _
                    between h5
                    λ last l h6.
                      let (same, end) = pure-ok found names last after h6 in
                      let many = &&_right (are_distinct found) (ltb 60 (length found)) complete in
                      subst (λ ns. IsProgram ns host after) same
                        (record {
                          content = content;
                          makefile = makefile;
                          objects = objects;
                          between = between;
                          found = r;
                          read_there = m;
                          listed = o;
                          distinct = &&_left (are_distinct found) (ltb 60 (length found)) complete;
                          more = ground (arith, many);
                          compiled =
                              for_each-AreGiven IsCompiled (Compile.compile_object config machine)
                                compile_object-IsCompiled found objects host between c;
                          linked = l ∙ ap (λ (k : Host W). (ok tt, k)) end;
                        })

  -- The second half, from a host to another: the features, the header of their macros, the loader, the program, and the checks.
  pub record AreOutputs (macros names : List String) (host after : Host W) : Type 0 where
    pub featured : Host W
    pub loaded : Host W
    pub linked : Host W
    pub features :
        for_each (Compile.check_feature config machine) Compile.features host
        ≡ (ok macros, featured)
    pub is_loader :
        Compile.build_loader config machine
          (write
            (source_file config ("build.h" ∷ []))
            (machine.encode (Compile.joined_lines macros))
            featured).1
        ≡ (ok tt, loaded)
    pub is_program : IsProgram names loaded linked
    pub checked : Compile.check_outputs config machine linked ≡ (ok tt, after)

  pub compile_all-AreOutputs :
      (macros names : List String) (host after : Host W)
      → Compile.compile_all config machine host ≡ (ok (macros, names), after)
      → AreOutputs macros names host after
  unfolding Compile.compile_all
  compile_all-AreOutputs macros names host after h =
      bind-ok (for_each (Compile.check_feature config machine) Compile.features) _ host h
        λ found featured f h1.
          let headed =
            (write (source_file config ("build.h" ∷ []))
              (machine.encode (Compile.joined_lines found)) featured).1 in
          then-ok (Compile.build_loader config machine) _ headed h1 λ loaded l h3.
            bind-ok (Compile.build_program config machine) _ loaded h3 λ objects linked b h4.
              then-ok (Compile.check_outputs config machine) _ linked h4 λ last c h5.
                let (same, end) = pure-ok (found, objects) (macros, names) last after h5 in
                subst (λ (p : List String × List String). AreOutputs p.0 p.1 host after) same
                  (record {
                    featured = featured;
                    loaded = loaded;
                    linked = linked;
                    features = f;
                    is_loader = l;
                    is_program = build_program-IsProgram objects loaded linked b;
                    checked = c ∙ ap (λ (k : Host W). (ok tt, k)) end;
                  })

  -- A build that returns: the inputs, the second half behind the first, and what is written, the report, of the files before it, with the number of objects.
  pub record IsBuilt (host after : Host W) : Type 0 where
    pub first : Host W
    pub before : Host W
    pub names : List String
    pub features : List String
    pub report : Report.Report
    pub inputs : AreInputs host
    pub prepared : Prepare.prepare config machine host ≡ (ok tt, first)
    pub outputs : AreOutputs features names first before
    pub described : IsReport config machine before features (length names) report
    pub written :
        after.files
        ≡ put
            (work_file config ("build.json" ∷ []))
            (some (machine.dumps (Report.report_json report)))
            before.files
