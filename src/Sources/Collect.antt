-- ===== src/Sources/Collect.antt =====
-- `main` of scripts/collect-proot-sources.py
use tiny_agent.Base.{
  FilePath, codes, bytes_eq, ℕ, suc, String, ◌<>◌, Bool, true, false, ◌&&◌, ◌||◌, some, List, [],
  ◌∷◌, map, Bytes, Result, assertion,
}
use tiny_agent.Json.{Json, Fields, natural, text, array, object, no_fields, field, values_of}
use tiny_agent.Host.{Exec, ◌>>=◌, ◌>>◌, pure, lift, require, read, exists, write, for_each}
use tiny_agent.Sources.{Page, Source, fetch}
use tiny_agent.Sources.Notices.{Entry, Notice, notice_file, archive_notices, has_prefix}

pub record Pin : Type 0 where
  pub name : String
  pub url : String
  pub expected : String

abbrev pub pins : List Pin
pins =
    record {
      name = "proot-5.1.107.92.zip";
      url = "https://github.com/termux/proot/archive/v5.1.107.92.zip";
      expected = "29385d1ddb619a9c4449ab512bfd55032034b22f724ddf98fc95ff300ea32135";
    }
    ∷ record {
      name = "talloc-2.4.3.tar.gz";
      url = "https://www.samba.org/ftp/talloc/talloc-2.4.3.tar.gz";
      expected = "dc46c40b9f46bb34dd97fe41f548b0e8b247b77a918576733c528e83abd854dd";
    }
    ∷ record {
      name = "libandroid-shmem-0.7.tar.gz";
      url = "https://github.com/termux/libandroid-shmem/archive/refs/tags/v0.7.tar.gz";
      expected = "1e5ff8459bc0a8c229dd8a94b27d119987e09ef3414331c2b5ebfff20b98e867";
    }
    ∷ []

abbrev pub termux_revision : String
termux_revision = "ff422d48d23ad12e8ffba021c2fa3a5c6b4f138e"

-- Below `OUT` and below the directory of the licences.
abbrev pub out : String → FilePath
out name = "artifacts" ∷ "native-sources" ∷ name ∷ []

abbrev pub license : String → FilePath
license name = "app" ∷ "src" ∷ "main" ∷ "assets" ∷ "licenses" ∷ name ∷ []

-- A source with its notices.
abbrev pub Record : Type 0
Record = Source × List Notice

abbrev pub source_fields : Source → Fields → Fields
source_fields s rest = field "file" (text s.file) (
    field "url" (text s.url)
      (field "sha256" (text s.sha256) (field "bytes" (natural s.bytes) rest)))

abbrev pub notice_json : Notice → Json
notice_json n = object (
    field "source_member" (text n.source_member)
      (field "file" (text n.file) (field "sha256" (text n.sha256) no_fields)))

abbrev pub record_json : Record → Json
record_json (s, ns) =
    object (source_fields s (field "notices" (array (values_of (map notice_json ns))) no_fields))

abbrev pub report_json : List Record → Source → Source → Json
report_json records gpl recipe = object (
    field "sources" (array (values_of (map record_json records))) (
      field "additional_license" (object (source_fields gpl no_fields)) (
        field "build_recipes" (object (source_fields recipe no_fields)) (
          field "recipe_revision" (text termux_revision) (
            field "scope"
              (text
                "Sources and complete notice files collected. Rebuilt binary equivalence, repository signatures, dependency closure and distribution compliance remain unverified.")
              no_fields)))))

unfoldable pub bytes_in : Bytes → Bytes → Bool
unfolding bytes_eq
bytes_in part [] = bytes_eq part []
bytes_in part (b ∷ bs) = has_prefix part (b ∷ bs) || bytes_in part bs

abbrev pub is_nonempty : List (String × Bytes) → Bool
is_nonempty [] = false
is_nonempty (n ∷ ns) = true

-- The digest, the network, the readers of archives, and the writer of JSON.
module _ (digest : Bytes → String) {W : Type 0} (urlopen : String → ℕ → W → Result Page × W)
    (unzip : Bytes → Result (List Entry)) (untar : Bytes → Result (List Entry))
    (dumps : Json → Bytes) where
  -- The loop over the notices from a number on.
  unfoldable pub store_notices : String → ℕ → List (String × Bytes) → Exec W (List Notice)
  store_notices name index [] = pure []
  store_notices name index ((member, content) ∷ rest) =
      write (out (notice_file name index)) content
      >> (store_notices name (suc index) rest >>= λ notices. pure (
          record { source_member = member; file = notice_file name index; sha256 = digest content }
          ∷ notices))

  unfoldable pub collect_source : Pin → Exec W Record
  unfolding fetch archive_notices store_notices
  collect_source pin =
      fetch digest urlopen pin.url (out pin.name) (some pin.expected) >>= λ fetched.
      lift (archive_notices unzip untar pin.name fetched.0) >>= λ notices.
      require (is_nonempty notices) (assertion ("No notices found in " <> pin.name))
      >> (store_notices pin.name 0 notices >>= λ stored. pure (fetched.1, stored))

  unfoldable pub copy_notice : Notice → Exec W (Unit {0})
  copy_notice notice = read (out notice.file) >>= write (license notice.file)

  unfoldable pub copy_notices : Record → Exec W (List (Unit {0}))
  unfolding for_each copy_notice
  copy_notices (s, notices) = for_each copy_notice notices

  abbrev pub copy_bundled : Bool → Bool → Exec W (Unit {0})
  copy_bundled false true = read (license "GPL-3.0.txt") >>= write (out "GPL-3.0.txt")
  copy_bundled _ _ = pure tt

  -- The licence that is versioned with the source, from there or from the network.
  unfoldable pub collect_license : Exec W Source
  unfolding fetch bytes_in
  collect_license =
      exists (out "GPL-3.0.txt")
      >>= (λ cached. exists (license "GPL-3.0.txt") >>= copy_bundled cached)
      >> (fetch digest urlopen "https://www.gnu.org/licenses/gpl-3.0.txt" (out "GPL-3.0.txt")
            (some "3972dc9744f6499f0f9b2dbf76696f2ae7ad8af9b23dde66d6af86c9dfb36986")
          >>= λ gpl.
              require
                (bytes_in (codes "GNU GENERAL PUBLIC LICENSE") gpl.0
                  && bytes_in (codes "Version 3") gpl.0)
                (assertion "")
              >> write (license "GPL-3.0.txt") gpl.0
              >> pure gpl.1)

  unfoldable pub collect_sources : List Pin → Exec W (Unit {0})
  unfolding for_each collect_source copy_notices collect_license fetch
  collect_sources inputs = for_each collect_source inputs >>= λ records.
      for_each copy_notices records >>= λ _. collect_license >>= λ gpl.
      fetch digest urlopen
        ("https://github.com/termux/termux-packages/archive/" <> (termux_revision <> ".tar.gz"))
        (out ("termux-packages-" <> (termux_revision <> ".tar.gz")))
        (some "10f95083c4f8444d412adfbe36d6cd2439e6a771fa72ebaa0873f92488489741")
      >>= λ recipe.
          write ("evidence" ∷ "native-source-collection.json" ∷ [])
            (dumps (report_json records gpl recipe.1))
