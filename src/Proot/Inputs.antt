-- ===== src/Proot/Inputs.antt =====
-- The files below runtime/ that scripts/stage-proot.py reads behind the loop over the packages.
use tiny_agent.Base.{
  FilePath, parts, file_name, split, starts_with, contains, ℕ, ◌+◌, ◌*◌, leb, length, refl, String,
  ◌<>◌, Bool, true, false, not, ◌&&◌, Option, none, some, List, [], ◌∷◌, bytes_eq, take, Bytes,
  Result, assertion, path_eq, if◌then◌else◌, dict_put,
}
use tiny_agent.Json.{Json, text, index, json_eq}
use tiny_agent.Host.{Exec, ◌>>=◌, ◌>>◌, pure, lift, require, exists, write, call}
use tiny_agent.Host.Spares.{
  Spares, bind-Spares, then-Spares, lift-Spares, require-Spares, call-Spares, write-Spares,
}
use tiny_agent.Sources.Notices.{Entry}
use tiny_agent.Proot.Archive.{ar_members, first_data}
use tiny_agent.Proot.Rename.{rename_library}
use tiny_agent.Proot.Stage.{
  Outputs, library, cached, elf, target_name, relative_text, kept_fields, record_keys, fetch,
  stage_program, stage_target, stage_entries, package_bytes, package_content, stage_package,
  stage_packages,
}

abbrev pub runtime_file : String → FilePath
runtime_file name = "runtime" ∷ name ∷ []

module _ (digest : Bytes → String) {W : Type 0} (urlopen : String → ℕ → W → Result Bytes × W)
    (decode : Bytes → Result String) (untar : Bytes → Result (List Entry))
    (loads : Bytes → Result Json) (name : String) where
  fetch-Spares :
      (url : String) → Spares (runtime_file name) (fetch digest urlopen decode untar loads url)
  unfolding fetch
  fetch-Spares url =
      bind-Spares (runtime_file name) (call (urlopen url (16 * 1024 * 1024 + 1))) _
        (call-Spares (runtime_file name) (urlopen url (16 * 1024 * 1024 + 1)))
        λ content.
          require-Spares (runtime_file name) (leb (length content) (16 * 1024 * 1024)) _ _
            (λ host. refl)

  package_bytes-Spares :
      (found : Bool) (relative : String) (path : FilePath)
      → Spares
          (runtime_file name)
          (package_bytes digest urlopen decode untar loads found relative path)
  package_bytes-Spares true relative path = λ host. refl
  package_bytes-Spares false relative path =
      fetch-Spares ("https://packages.termux.dev/apt/termux-main/" <> relative)

  package_content-Spares :
      (document : Json)
      → Spares (runtime_file name) (package_content digest urlopen decode untar loads document)
  unfolding package_content path_eq
  package_content-Spares document =
      lift-Spares (runtime_file name) (index document "Filename") _ λ filename.
        lift-Spares (runtime_file name) (relative_text filename) _ λ relative.
          require-Spares (runtime_file name)
            (not (starts_with relative "/") && not (contains ".." (split b'/' relative)))
            (assertion "") (found_content relative (cached (file_name (parts relative))))
            (bind-Spares (runtime_file name) (exists (cached (file_name (parts relative))))
              (with_bytes relative (cached (file_name (parts relative)))) (λ host. refl)
              λ found.
                bind-Spares (runtime_file name)
                  (package_bytes digest urlopen decode untar loads found relative
                    (cached (file_name (parts relative))))
                  (checked (cached (file_name (parts relative))))
                  (package_bytes-Spares found relative (cached (file_name (parts relative))))
                  λ content.
                    lift-Spares (runtime_file name) (index document "SHA256")
                      (stored (cached (file_name (parts relative))) content)
                      λ expected.
                        then-Spares (runtime_file name)
                          (require (json_eq (text (digest content)) expected) (assertion "")
                            >> write (cached (file_name (parts relative))) content)
                          (pure content)
                          (require-Spares (runtime_file name)
                            (json_eq (text (digest content)) expected) (assertion "")
                            (write (cached (file_name (parts relative))) content)
                            (write-Spares (runtime_file name) (cached (file_name (parts relative)))
                              content refl))
                          (λ host. refl))
    where
      stored : FilePath → Bytes → Json → Exec W Bytes
      stored path content expected =
          require (json_eq (text (digest content)) expected) (assertion "")
          >> write path content
          >> pure content

      checked : FilePath → Bytes → Exec W Bytes
      checked path content = lift (index document "SHA256") >>= stored path content

      with_bytes : String → FilePath → Bool → Exec W Bytes
      with_bytes relative path found =
          package_bytes digest urlopen decode untar loads found relative path >>= checked path

      found_content : String → FilePath → Exec W Bytes
      found_content relative path = exists path >>= with_bytes relative path

  stage_target-Spares :
      (outputs : Outputs) (entry : Entry) (target : Option String)
      → Spares
          (runtime_file name)
          (stage_target digest urlopen decode untar loads outputs entry target)
  unfolding stage_program path_eq
  stage_target-Spares outputs entry none = λ host. refl
  stage_target-Spares outputs entry (some base) =
      lift-Spares (runtime_file name) entry.content _ λ original.
        then-Spares (runtime_file name)
          (require (bytes_eq (take 4 original) elf) (assertion "")
            >> write (library base) (rename_library original))
          (pure (dict_put base (digest (rename_library original)) outputs))
          (require-Spares (runtime_file name) _ _ (write (library base) (rename_library original))
            (write-Spares (runtime_file name) (library base) (rename_library original) refl))
          (λ host. refl)

  stage_entries-Spares :
      (entries : List Entry) (outputs : Outputs)
      → Spares (runtime_file name) (stage_entries digest urlopen decode untar loads entries outputs)
  unfolding stage_entries
  stage_entries-Spares [] outputs = λ host. refl
  stage_entries-Spares (entry ∷ entries) outputs =
      bind-Spares (runtime_file name)
        (stage_target digest urlopen decode untar loads outputs entry
          (if entry.is_file then target_name entry.name else none))
        _ (stage_target-Spares outputs entry _) (stage_entries-Spares entries)

  stage_package-Spares :
      (document : Json) (outputs : Outputs)
      → Spares
          (runtime_file name)
          (stage_package digest urlopen decode untar loads document outputs)
  unfolding stage_package
  stage_package-Spares document outputs =
      lift-Spares (runtime_file name) (index document "Package") _ λ _.
        bind-Spares (runtime_file name) (package_content digest urlopen decode untar loads document)
          _ (package_content-Spares document)
          λ content. lift-Spares (runtime_file name) (kept_fields document record_keys) _ λ kept.
            lift-Spares (runtime_file name) (first_data (ar_members decode content)) _ λ payload.
              lift-Spares (runtime_file name) (untar payload) _ λ entries.
                bind-Spares (runtime_file name)
                  (stage_entries digest urlopen decode untar loads entries outputs) _
                  (stage_entries-Spares entries outputs) λ after host. refl

  pub stage_packages-Spares :
      (documents : List Json) (outputs : Outputs)
      → Spares
          (runtime_file name)
          (stage_packages digest urlopen decode untar loads documents outputs)
  unfolding stage_packages
  stage_packages-Spares [] outputs = λ host. refl
  stage_packages-Spares (document ∷ documents) outputs =
      bind-Spares (runtime_file name)
        (stage_package digest urlopen decode untar loads document outputs) _
        (stage_package-Spares document outputs)
        λ staged.
          bind-Spares (runtime_file name)
            (stage_packages digest urlopen decode untar loads documents staged.1) _
            (stage_packages-Spares documents staged.1) λ rest host. refl
