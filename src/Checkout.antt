-- ===== src/Checkout.antt =====
-- scripts/collect-dnfast-sources.py: the export of the pinned sources of the package manager.
pub mod Exported
use tiny_agent.Base.{
  FilePath, String, ◌<>◌, List, [], ◌∷◌, str_eq, strip, Bytes, bytes_eq, Result, ok, value_error,
  guard, check_all,
}
use tiny_agent.Base
use tiny_agent.Json.{Json, text, object, no_fields, field}
use tiny_agent.Host.{Exec, ◌>>=◌, ◌>>◌, lift, require, write, replace}
use tiny_agent.Sources.Notices.{Entry}
use tiny_agent.Rpms.{get_member}

abbrev pub revision : String
revision = "1449710f35e1079c5999a3d6cc41800d4b432a4d"

-- What git gives of the checkout: the name of the commit, the licence in it, and the archive of it.
pub record Checkout : Type 0 where
  pub commit : Result String
  pub license : Result Bytes
  pub archive : Result Bytes

abbrev pub archive_name : String
archive_name = "dnfast-" <> (revision <> ".tar")

abbrev pub native_sources : String → FilePath
native_sources name = "artifacts" ∷ "native-sources" ∷ name ∷ []

abbrev pub license_file : FilePath
license_file = "app" ∷ "src" ∷ "main" ∷ "assets" ∷ "licenses" ∷ "dnfast-LICENSE.txt" ∷ []

abbrev pub receipt : FilePath
receipt = "runtime" ∷ "dnfast-source-export.json" ∷ []

abbrev pub member : String → String
member name = "dnfast-" <> (revision <> ("/" <> name))

abbrev pub required_names : List String
required_names = "Cargo.lock" ∷ "Cargo.toml" ∷ "crates/dnfast-cli/Cargo.toml" ∷ []

abbrev pub is_there : List Entry → String → Result (Unit {0})
is_there entries name = Base.◌>>=◌ (get_member (member name) entries) (λ _. ok tt)

abbrev pub scope : String
scope =
    "Pinned source export only; not proof of binary reproducibility or dependency-source completeness"

module _ (digest : Bytes → String) where
  abbrev pub receipt_json : Bytes → Bytes → Json
  receipt_json packed notice = object (
      field "source_commit" (text revision) (
        field "archive" (text archive_name) (
          field "archive_sha256" (text (digest packed)) (
            field "notice" (text "dnfast-LICENSE.txt") (
              field "notice_sha256" (text (digest notice))
                (field "scope" (text scope) no_fields))))))

  module _ (untar : Bytes → Result (List Entry)) where
    abbrev pub check_license : List Entry → Bytes → Result (Unit {0})
    check_license entries notice = Base.◌>>=◌ (get_member (member "LICENSE") entries) λ entry.
        Base.◌>>=◌ entry.content
          λ content. guard (bytes_eq content notice) (value_error "Archive notice mismatch")

    unfoldable pub check_archive : Bytes → Bytes → Result (Unit {0})
    unfolding get_member check_all bytes_eq
    check_archive packed notice = Base.◌>>=◌ (untar packed) λ entries.
        Base.◌>>◌ (check_license entries notice) (check_all (is_there entries) required_names)

    unfoldable pub export_checkout : {W : Type 0} → Checkout → (Json → Bytes) → Exec W (Unit {0})
    unfolding check_archive
    export_checkout checkout dumps = lift checkout.commit >>= λ printed.
        require (str_eq (strip printed) revision) (value_error "dnfast revision mismatch")
        >> (lift checkout.license >>= λ notice. lift checkout.archive >>= λ packed.
            write (native_sources (archive_name <> ".part")) packed
            >> (lift (check_archive packed notice)
                >> (replace (native_sources (archive_name <> ".part")) (native_sources archive_name)
                    >> (write license_file notice
                        >> write receipt (dumps (receipt_json packed notice))))))
