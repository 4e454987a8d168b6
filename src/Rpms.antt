-- ===== src/Rpms.antt =====
-- scripts/stage-dnfast-source-notices.py: the notices of pinned source packages.
pub mod Run
pub mod Staged
use tiny_agent.Base.{
  FilePath, parts, file_name, ℕ, ◌*◌, String, ◌<>◌, ◌&&◌, List, [], ◌∷◌, leb, if◌then◌else◌, str_eq,
  Bytes, Result, ok, err, value_error, type_error, key_error, guard, ◌>>=◌, ◌>>◌, Dict, dict_at,
}
use tiny_agent.Json.{Json, text, array, object, no_fields, field, index, json_eq}
use tiny_agent.Sources.Notices.{Entry}

-- The archive in a source package, and its members that are notices.
pub record Target : Type 0 where
  pub source : String
  pub members : List String

abbrev pub targets : Dict Target
targets =
    (
      "acl-2.4.0-1.fc44.src.rpm",
      record {
        source = "acl-2.4.0.tar.gz";
        members = "acl-2.4.0/doc/COPYING" ∷ "acl-2.4.0/doc/COPYING.LGPL" ∷ [];
      },
    )
    ∷ (
      "zlib-ng-2.3.3-3.fc44.src.rpm",
      record { source = "zlib-ng-2.3.3.tar.gz"; members = "zlib-ng-2.3.3/LICENSE.md" ∷ [] },
    )
    ∷ []

-- `targets[name]`, with the name
abbrev pub target_at : Json → Result (String × Target)
target_at (text name) = do target ← dict_at name targets; ok (name, target)
target_at (array _) = err (type_error "unhashable type")
target_at (object _) = err (type_error "unhashable type")
target_at _ = err (key_error "")

unfoldable pub target_of : Json → Result (String × Target)
unfolding index
target_of record_ = index record_ "source_rpm" >>= target_at

-- `archive.getmember(name)`: of members with one name the last counts.
abbrev pub or_entry : Entry → Result Entry → Result Entry
or_entry entry (ok found) = ok found
or_entry entry (err x) = ok entry

unfoldable pub get_member : String → List Entry → Result Entry
get_member name [] = err (key_error name)
get_member name (entry ∷ entries) =
    let rest = get_member name entries in
    if str_eq entry.name name then or_entry entry rest else rest

unfoldable pub read_member : String → List Entry → Result Bytes
unfolding get_member
read_member name entries = do
  entry ← get_member name entries
  guard (entry.is_file && leb entry.size (1024 * 1024)) (value_error "Invalid notice member")
  entry.content

pub record Notice : Type 0 where
  pub file : String
  pub sha256 : String
  pub source_rpm : String
  pub source_archive : String
  pub member : String

abbrev pub notice_json : Notice → Json
notice_json notice = object (
    field "file" (text notice.file) (
      field "sha256" (text notice.sha256) (
        field "source_rpm" (text notice.source_rpm) (
          field "source_archive" (text notice.source_archive)
            (field "member" (text notice.member) no_fields)))))

abbrev pub relative_name : String → String → String
relative_name name member = "dnfast-source/" <> (name <> ("/" <> file_name (parts member)))

-- The members of the archive in a source package that has the digest of its record; `extract` is the run of tar.
unfoldable pub read_archive :
    (Bytes → String)
    → (Bytes → String → Result Bytes)
    → (Bytes → Result (List Entry))
    → Json
    → String
    → String
    → Bytes
    → Result (List Entry)
unfolding index json_eq
read_archive digest extract untar record_ name source rpm = do
  expected ← index record_ "sha256"
  guard (json_eq (text (digest rpm)) expected)
      (value_error ("Source RPM digest mismatch: " <> name))
  packed ← extract rpm source
  untar packed
