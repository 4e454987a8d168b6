-- ===== src/Build/Prepare.antt =====
-- The first half of `main` of scripts/build-proot-candidate.py and scripts/build-proot-fchmodat2.py: the sources, the patches, the headers and the libraries.
use tiny_agent.Base.{
  FilePath, parts, file_name, String, Bool, true, false, Option, none, some, List, [], ◌∷◌,
  if◌then◌else◌, str_eq, Bytes, Result, assertion, guard, check_all,
}
use tiny_agent.Json.{Json, text, index, json_eq}
use tiny_agent.Host.{Exec, ◌>>=◌, ◌>>◌, pure, lift, require, read, write, each}
use tiny_agent.Sources.Notices.{Entry}
use tiny_agent.Staging.{is_inner}
use tiny_agent.Proot.Stage.{library}
use tiny_agent.Checkout.{native_sources}
use tiny_agent.Build.{Arg, word, at, Config, Machine, source_root, header_file, work_file}

abbrev pub source_archive : FilePath
source_archive = native_sources "proot-5.1.107.92.zip"

abbrev pub source_digest : String
source_digest = "29385d1ddb619a9c4449ab512bfd55032034b22f724ddf98fc95ff300ea32135"

abbrev pub header_archives : List (String × String)
header_archives =
    ("talloc-2.4.3.tar.gz", "dc46c40b9f46bb34dd97fe41f548b0e8b247b77a918576733c528e83abd854dd")
    ∷ (
      "libandroid-shmem-0.7.tar.gz",
      "1e5ff8459bc0a8c229dd8a94b27d119987e09ef3414331c2b5ebfff20b98e867",
    )
    ∷ []

abbrev pub library_names : List String
library_names = "libtalloc.so" ∷ "libandroid-shmem.so" ∷ []

abbrev pub staging_receipt : FilePath
staging_receipt = "evidence" ∷ "proot-staging.json" ∷ []

abbrev pub patch_file : String → FilePath
patch_file name = "patches" ∷ name ∷ []

-- Where a header with one of the two names goes, below the directory of the headers.
abbrev pub header_of : String → Option FilePath
header_of base =
    if str_eq base "shm.h"
    then some ("sys" ∷ "shm.h" ∷ [])
    else if str_eq base "talloc.h"
    then some ("talloc.h" ∷ [])
    else none

abbrev pub check_name : Entry → Result (Unit {0})
check_name entry = guard (is_inner entry.name) (assertion "")

module _ {W : Type 0} where
  abbrev pub content_of : Entry → Exec W Bytes
  content_of entry = lift entry.content

  module _ (config : Config) where
    -- Directories are made too.
    abbrev pub extract_kind : Entry → Bool → Exec W (Unit {0})
    extract_kind entry false = pure tt
    extract_kind entry true = content_of entry >>= write (work_file config (parts entry.name))

    abbrev pub extract_entry : Entry → Exec W (Unit {0})
    extract_entry entry = extract_kind entry entry.is_file

    abbrev pub write_header : Entry → Option FilePath → Exec W (Unit {0})
    write_header entry none = pure tt
    write_header entry (some path) = content_of entry >>= write (header_file config path)

    abbrev pub extract_header : Entry → Exec W (Unit {0})
    extract_header entry =
        write_header entry
          (if entry.is_file then header_of (file_name (parts entry.name)) else none)

    module _ (machine : Machine W) where
      abbrev pub sha : FilePath → Exec W String
      sha path = read path >>= λ content. pure (machine.digest content)

      abbrev pub check_digest : FilePath → String → Exec W (Unit {0})
      check_digest path expected =
          sha path >>= λ found. require (str_eq found expected) (assertion "")

      unfoldable pub unpack_source : Exec W (Unit {0})
      unfolding each check_all
      unpack_source =
          check_digest source_archive source_digest
          >> (read source_archive >>= λ content. lift (machine.unzip content) >>= λ entries.
              lift (check_all check_name entries) >> each extract_entry entries)

      abbrev pub git : List Arg → Exec W (Unit {0})
      git argv =
          machine.tool (record { argv = word "git" ∷ argv; cwd = source_root config; input = [] })
          >>= λ _. pure tt

      -- A patch is applied when the check of it has passed.
      abbrev pub apply_patch : String × String → Exec W (Unit {0})
      apply_patch (key, name) =
          git (word "apply" ∷ word "--check" ∷ at (patch_file name) ∷ [])
          >> git (word "apply" ∷ at (patch_file name) ∷ [])

      abbrev pub unpack_headers : String × String → Exec W (Unit {0})
      unpack_headers (name, expected) =
          check_digest (native_sources name) expected
          >> (read (native_sources name) >>= λ content.
              lift (machine.untar content) >>= λ entries. each extract_header entries)

      abbrev pub check_library : Json → String → Exec W (Unit {0})
      check_library pins name = sha (library name) >>= λ found.
          lift (index pins "output_sha256") >>= λ outputs. lift (index outputs name) >>= λ expected.
          require (json_eq (text found) expected) (assertion "")

      abbrev pub check_libraries : Exec W (Unit {0})
      check_libraries = read staging_receipt >>= λ content.
          lift (machine.loads content) >>= λ pins. each (check_library pins) library_names

      unfoldable pub prepare : Exec W (Unit {0})
      unfolding unpack_source each index json_eq
      prepare =
          unpack_source
          >> (each apply_patch config.patches
              >> (each unpack_headers header_archives >> check_libraries))
