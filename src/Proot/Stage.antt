-- ===== src/Proot/Stage.antt =====
-- `main` of scripts/stage-proot.py
use tiny_agent.Base.{
  Dict, dict_put, dict_at, FilePath, parts, file_name, split, starts_with, ends_with, contains,
  codes, take, bytes_eq, length, ℕ, ◌+◌, ◌*◌, String, ◌<>◌, Bool, true, false, not, ◌&&◌, Option,
  none, some, List, [], ◌∷◌, map, ltb, leb, ◌==◌, if◌then◌else◌, str_eq, Bytes, Result, ok, err,
  assertion, attribute_error,
}
use tiny_agent.Json.{
  Json, text, object, Fields, no_fields, field, index, elements, items_of, set_of, same_set,
  json_eq,
}
use tiny_agent.Host.{Exec, ◌>>=◌, ◌>>◌, pure, lift, require, read, exists, write, call, for_each}
use tiny_agent.Sources.Notices.{Entry}
use tiny_agent.Proot.Archive.{ar_members, first_data}
use tiny_agent.Proot.Rename.{rename_library}

abbrev pub dict_keys : {V : Type 0} → Dict V → List Json
dict_keys [] = []
dict_keys ((k, v) ∷ rest) = text k ∷ dict_keys rest

abbrev pub dict_fields : Dict String → Fields
dict_fields [] = no_fields
dict_fields ((k, v) ∷ rest) = field k (text v) (dict_fields rest)

-- The digests of what was staged, by the name of the library.
abbrev pub Outputs : Type 0
Outputs = Dict String

abbrev pub library : String → FilePath
library name = "app" ∷ "src" ∷ "main" ∷ "jniLibs" ∷ "arm64-v8a" ∷ name ∷ []

abbrev pub cached : String → FilePath
cached name = ".checks" ∷ "proot-packages" ∷ name ∷ []

-- The name under which a member is staged: of the four tests the last that holds decides.
abbrev pub target_name : String → Option String
target_name name =
    let base = file_name (parts name) in
    if str_eq base "libandroid-shmem.so"
    then some base
    else if starts_with base "libtalloc.so."
    then some "libtalloc.so"
    else if ends_with name "/libexec/proot/loader"
    then some "libproot_loader.so"
    else if ends_with name "/bin/proot"
    then some "libproot.so"
    else none

abbrev pub elf : Bytes
elf = 0x7f ∷ codes "ELF"

abbrev pub relative_text : Json → Result String
relative_text (text s) = ok s
relative_text _ = err (attribute_error "startswith")

abbrev pub push_field : String → Json → Result Fields → Result Fields
push_field key v (err x) = err x
push_field key v (ok kvs) = ok (field key v kvs)

-- `{k: fields[k] for k in keys}`
unfoldable pub kept_fields : Json → List String → Result Fields
unfolding index
kept_fields document [] = ok no_fields
kept_fields document (key ∷ keys) =
    let rest = kept_fields document keys in
    elim (index document key) [ err x ↦ err x | ok v ↦ push_field key v rest ]

abbrev pub record_keys : List String
record_keys = "Package" ∷ "Version" ∷ "Filename" ∷ "SHA256" ∷ []

abbrev pub required_packages : List Json
required_packages = map text ("proot" ∷ "libtalloc" ∷ "libandroid-shmem" ∷ [])

abbrev pub output_names : List Json
output_names =
    map text ("libproot.so" ∷ "libproot_loader.so" ∷ "libtalloc.so" ∷ "libandroid-shmem.so" ∷ [])

abbrev pub promoted_names : List Json
promoted_names = map text ("libproot.so" ∷ "libproot_loader.so" ∷ [])

-- The digest, the network with the most bytes that are read, the decoder of texts, and the readers
-- of tape archives and of JSON.
module _ (digest : Bytes → String) {W : Type 0} (urlopen : String → ℕ → W → Result Bytes × W)
    (decode : Bytes → Result String) (untar : Bytes → Result (List Entry))
    (loads : Bytes → Result Json) where
  abbrev pub limit : ℕ
  limit = 16 * 1024 * 1024

  unfoldable pub fetch : String → Exec W Bytes
  fetch url = call (urlopen url (limit + 1)) >>= λ content.
      require (leb (length content) limit) (assertion "Download exceeds staging limit")
      >> pure content

  -- A program is written under its name.
  unfoldable pub stage_program : Outputs → String → Bytes → Exec W Outputs
  unfolding bytes_eq rename_library
  stage_program outputs name original =
      require (bytes_eq (take 4 original) elf) (assertion "")
      >> write (library name) (rename_library original)
      >> pure (dict_put name (digest (rename_library original)) outputs)

  abbrev pub stage_target : Outputs → Entry → Option String → Exec W Outputs
  stage_target outputs entry none = pure outputs
  stage_target outputs entry (some name) = lift entry.content >>= stage_program outputs name

  -- The loop over the members of a package.
  unfoldable pub stage_entries : List Entry → Outputs → Exec W Outputs
  unfolding stage_program
  stage_entries [] outputs = pure outputs
  stage_entries (entry ∷ entries) outputs =
      stage_target outputs entry (if entry.is_file then target_name entry.name else none)
      >>= stage_entries entries

  abbrev pub package_bytes : Bool → String → FilePath → Exec W Bytes
  package_bytes true relative path = read path
  package_bytes false relative path =
      fetch ("https://packages.termux.dev/apt/termux-main/" <> relative)

  -- The bytes of a package, from the cache or the network, with the pinned digest.
  unfoldable pub package_content : Json → Exec W Bytes
  unfolding index contains fetch json_eq
  package_content document = lift (index document "Filename") >>= λ filename.
      lift (relative_text filename) >>= λ relative.
      require (not (starts_with relative "/") && not (contains ".." (split b'/' relative)))
        (assertion "")
      >> (exists (cached (file_name (parts relative))) >>= λ found.
          package_bytes found relative (cached (file_name (parts relative))) >>= λ content.
          lift (index document "SHA256") >>= λ expected.
          require (json_eq (text (digest content)) expected) (assertion "")
          >> write (cached (file_name (parts relative))) content
          >> pure content)

  -- One round of the loop over the packages.
  unfoldable pub stage_package : Json → Outputs → Exec W (Json × Outputs)
  unfolding index package_content kept_fields ar_members first_data stage_entries
  stage_package document outputs = lift (index document "Package") >>= λ _.
      package_content document >>= λ content. lift (kept_fields document record_keys) >>= λ kept.
      lift (first_data (ar_members decode content)) >>= λ payload.
      lift (untar payload) >>= λ entries.
      stage_entries entries outputs >>= λ after. pure (object kept, after)

  unfoldable pub stage_packages : List Json → Outputs → Exec W (List Json × Outputs)
  unfolding stage_package
  stage_packages [] outputs = pure ([], outputs)
  stage_packages (document ∷ documents) outputs = stage_package document outputs >>= λ staged.
      stage_packages documents staged.1 >>= λ rest. pure (staged.0 ∷ rest.0, rest.1)

  -- `json.loads((ROOT / name).read_text())`
  abbrev pub read_json : FilePath → Exec W Json
  read_json path = read path >>= λ content. lift (loads content)

  -- The digest of a file below the root is the one under a key of the candidate.
  unfoldable pub check_input : Json → String → FilePath → Exec W (Unit {0})
  unfolding index json_eq
  check_input candidate key path = read path >>= λ content.
      lift (index candidate key) >>= λ expected.
      require (json_eq (text (digest content)) expected) (assertion "")

  unfoldable pub check_inputs : Json → Exec W (Unit {0})
  unfolding index json_eq check_input
  check_inputs candidate = lift (index candidate "archive") >>= λ archive.
      require (json_eq archive (text "proot-fchmodat2-2.tar.gz")) (assertion "")
      >> (check_input candidate "archive_sha256" ("runtime" ∷ "proot-fchmodat2-2.tar.gz" ∷ [])
          >> (check_input candidate "patch_sha256" ("patches" ∷ "proot-exitkill.patch" ∷ [])
              >> check_input candidate "fchmodat2_patch_sha256"
                  ("patches" ∷ "proot-fchmodat2.patch" ∷ [])))

  abbrev pub check_dependency : Outputs → String × Json → Exec W (Unit {0})
  check_dependency outputs (name, expected) = lift (dict_at name outputs) >>= λ found.
      require (json_eq (text found) expected) (assertion "")

  -- The checks of what was staged, and of the candidate that replaces a part of it: its outputs.
  unfoldable pub check_staged : Json → List Json → Outputs → Exec W Json
  unfolding index items_of set_of same_set json_eq check_inputs for_each
  check_staged pinned records outputs =
      for_each (λ row. lift (index row "Package")) records >>= λ names.
      require (same_set names required_packages) (assertion "")
      >> require (same_set (dict_keys outputs) output_names) (assertion "")
      >> (lift (index pinned "output_sha256") >>= λ expected.
          require (json_eq (object (dict_fields outputs)) expected)
            (assertion "Packaged native bytes differ from source pins")
          >> (read_json ("runtime" ∷ "proot-fchmodat2-2.json" ∷ []) >>= λ candidate.
              check_inputs candidate
              >> (lift (index candidate "outputs") >>= λ promoted.
                  lift (set_of promoted) >>= λ names_set.
                  require (same_set names_set promoted_names) (assertion "")
                  >> (lift (index candidate "dependencies") >>= λ dependencies.
                      lift (items_of dependencies) >>= λ rows.
                      for_each (check_dependency outputs) rows >>= λ _. pure promoted))))

  -- A member of the candidate's archive, with its content.
  unfoldable pub read_replacement : Json → Entry → Exec W (String × Bytes)
  unfolding index json_eq
  read_replacement promoted entry =
      require (entry.is_file && ltb entry.size (1024 * 1024)) (assertion "")
      >> (lift entry.content >>= λ content. lift (index promoted entry.name) >>= λ expected.
          require (json_eq (text (digest content)) expected) (assertion "")
          >> pure (entry.name, content))

  abbrev pub entry_names : List Entry → List Json
  entry_names [] = []
  entry_names (entry ∷ entries) = text entry.name ∷ entry_names entries

  unfoldable pub read_replacements : Json → Exec W (List (String × Bytes))
  unfolding set_of same_set for_each read_replacement
  read_replacements promoted = read ("runtime" ∷ "proot-fchmodat2-2.tar.gz" ∷ []) >>= λ archive.
      lift (untar archive) >>= λ entries. lift (set_of promoted) >>= λ names.
      require (length entries == 2 && same_set (entry_names entries) names) (assertion "")
      >> for_each (read_replacement promoted) entries

  -- The loop over the replacements.
  unfoldable pub promote : List (String × Bytes) → Outputs → Exec W Outputs
  promote [] outputs = pure outputs
  promote ((name, content) ∷ rest) outputs =
      write (library name) content >> promote rest (dict_put name (digest content) outputs)

  -- The digests that are printed in the end.
  unfoldable pub stage_proot : Exec W Outputs
  unfolding index elements stage_packages check_staged read_replacements promote
  stage_proot = read_json ("evidence" ∷ "proot-staging.json" ∷ []) >>= λ pinned.
      lift (index pinned "packages") >>= λ packages. lift (elements packages) >>= λ documents.
      stage_packages documents [] >>= λ staged.
      check_staged pinned staged.0 staged.1 >>= λ promoted.
      read_replacements promoted >>= λ replacements. promote replacements staged.1
