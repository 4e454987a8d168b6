-- ===== src/Build/Kept.antt =====
-- The files outside of the directory, in the first half of scripts/build-proot-candidate.py and scripts/build-proot-fchmodat2.py
use tiny_agent.Base.{
  FilePath, parts, file_name, is_absolute, contains, str_eq, if◌then◌else◌, ◌≡◌, refl, String, Bool,
  true, false, not, Option, none, some, [], ◌∷◌, All-map, Bytes, ok, assertion, guard-eq-ok,
  check_all, check_all-All, &&_right, subst, some_injective, arith,
}
use tiny_agent.Json.{Json, index}
use tiny_agent.Host.{write, each}
use tiny_agent.Sources.Notices.{Entry}
use tiny_agent.Staging.{is_inner}
use tiny_agent.Checkout.{native_sources}
use tiny_agent.Proot.Stage.{library}
use tiny_agent.Build.{word, at, Config, Machine, work_file}
use tiny_agent.Build.Prepare
use tiny_agent.Build.Confined.{
  Keeps, is_inside-append, bind-Keeps, then-Keeps, lift-Keeps, read-Keeps, write-Keeps, each-Keeps,
  All-always,
}

not-false : (b : Bool) → not b ≡ true → b ≡ false
not-false b h = ground arith

-- A build whose directory has no ".." in its name, where `git apply` changes nothing outside of the directory.
module _ {W : Type 0} (config : Config) (machine : Machine W)
    (plain : contains ".." config.work ≡ false)
    (applies : (patch : FilePath)
      → Keeps config.work
          (Prepare.git config machine (word "apply" ∷ word "--check" ∷ at patch ∷ []))
        × Keeps config.work (Prepare.git config machine (word "apply" ∷ at patch ∷ []))) where
  pub writes :
      (rest : FilePath) (content : Bytes)
      → contains ".." rest ≡ false
      → Keeps {W = W} config.work (write (work_file config rest) content)
  writes rest content h =
      write-Keeps config.work (work_file config rest) content
        (is_inside-append config.work rest plain h)

  pub sha-Keeps : (path : FilePath) → Keeps config.work (Prepare.sha config machine path)
  sha-Keeps path = read-Keeps config.work path _ λ content host other out. refl

  check_digest-Keeps :
      (path : FilePath) (expected : String)
      → Keeps config.work (Prepare.check_digest config machine path expected)
  check_digest-Keeps path expected =
      bind-Keeps config.work (Prepare.sha config machine path) _ (sha-Keeps path)
        λ found host other out. refl

  extract_entry-Keeps :
      (entry : Entry)
      → Prepare.check_name entry ≡ ok tt
      → Keeps {W = W} config.work (Prepare.extract_entry config entry)
  extract_entry-Keeps entry h = go entry.is_file
    where
      inner : contains ".." (parts entry.name) ≡ false
      inner = not-false (contains ".." (parts entry.name)) (
          &&_right (not (is_absolute entry.name)) (not (contains ".." (parts entry.name)))
            (guard-eq-ok (is_inner entry.name) (assertion "") h))

      go : (b : Bool) → Keeps {W = W} config.work (Prepare.extract_kind config entry b)
      go true =
          lift-Keeps config.work entry.content (write (work_file config (parts entry.name)))
            λ content _. writes (parts entry.name) content inner
      go false = λ host path out. refl

  pub unpack_source-Keeps : Keeps config.work (Prepare.unpack_source config machine)
  unfolding Prepare.unpack_source
  unpack_source-Keeps =
      then-Keeps config.work
        (Prepare.check_digest config machine Prepare.source_archive Prepare.source_digest) _
        (check_digest-Keeps Prepare.source_archive Prepare.source_digest)
        (read-Keeps config.work Prepare.source_archive _ λ content.
          lift-Keeps config.work (machine.unzip content) _ λ entries _.
            lift-Keeps config.work (check_all Prepare.check_name entries)
              (λ _. each (Prepare.extract_entry config) entries)
              λ _ checked. each-Keeps config.work (Prepare.extract_entry config) entries (
                All-map _ _ extract_entry-Keeps entries
                  (check_all-All Prepare.check_name entries checked)))

  pub apply_patch-Keeps :
      (patch : String × String) → Keeps config.work (Prepare.apply_patch config machine patch)
  apply_patch-Keeps (key, name) =
      then-Keeps config.work _ _ (applies (Prepare.patch_file name)).0
        (applies (Prepare.patch_file name)).1

  header_plain :
      (base : String) (path : FilePath)
      → Prepare.header_of base ≡ some path
      → contains ".." ("public-include" ∷ path) ≡ false
  unfolding contains
  header_plain base path h = go (str_eq base "shm.h") (str_eq base "talloc.h") h
    where
      plainly :
          (found : FilePath)
          → contains ".." ("public-include" ∷ found) ≡ false
          → some found ≡ some path
          → contains ".." ("public-include" ∷ path) ≡ false
      plainly found e k =
          subst (λ p. contains ".." ("public-include" ∷ p) ≡ false) (some_injective found path k) e

      go :
          (a b : Bool)
          → (if a then some ("sys" ∷ "shm.h" ∷ []) else if b then some ("talloc.h" ∷ []) else none)
            ≡ some path
          → contains ".." ("public-include" ∷ path) ≡ false
      go true b k = plainly ("sys" ∷ "shm.h" ∷ []) refl k
      go false true k = plainly ("talloc.h" ∷ []) refl k
      go false false k = cc

  write_header-Keeps :
      (entry : Entry) (found : Option FilePath)
      → ((path : FilePath) → found ≡ some path → contains ".." ("public-include" ∷ path) ≡ false)
      → Keeps {W = W} config.work (Prepare.write_header config entry found)
  write_header-Keeps entry none h = λ host path out. refl
  write_header-Keeps entry (some path) h =
      lift-Keeps config.work entry.content _
        λ content _. writes ("public-include" ∷ path) content (h path refl)

  extract_header-Keeps :
      (entry : Entry) → Keeps {W = W} config.work (Prepare.extract_header config entry)
  extract_header-Keeps entry = go entry.is_file
    where
      go :
          (b : Bool)
          → Keeps {W = W} config.work (
              Prepare.write_header config entry
                (if b then Prepare.header_of (file_name (parts entry.name)) else none))
      go true = write_header-Keeps entry _ (header_plain (file_name (parts entry.name)))
      go false = λ host path out. refl

  pub unpack_headers-Keeps :
      (archive : String × String)
      → Keeps config.work (Prepare.unpack_headers config machine archive)
  unpack_headers-Keeps (name, expected) =
      then-Keeps config.work _ _ (check_digest-Keeps (native_sources name) expected) (
        read-Keeps config.work (native_sources name) _ λ content.
          lift-Keeps config.work (machine.untar content) _ λ entries _.
            each-Keeps config.work (Prepare.extract_header config) entries
              (All-always _ entries extract_header-Keeps))

  pub check_library-Keeps :
      (pins : Json) (name : String)
      → Keeps config.work (Prepare.check_library config machine pins name)
  check_library-Keeps pins name =
      bind-Keeps config.work (Prepare.sha config machine (library name)) _
        (sha-Keeps (library name))
        λ found. lift-Keeps config.work (index pins "output_sha256") _ λ outputs _.
          lift-Keeps config.work (index outputs name) _ λ expected _ host path out. refl
