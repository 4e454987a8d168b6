-- ===== src/Crates/Notices.antt =====
-- scripts/collect-dnfast-cargo-notices.py
use tiny_agent.Base.{
  parts, file_name, map, ℕ, ◌+◌, ◌*◌, String, ◌<>◌, Bool, true, false, ◌==◌, ◌&&◌, ◌||◌, Option,
  none, some, List, [], ◌∷◌, leb, if◌then◌else◌, str_eq, codes, Bytes, Result, ok, err, assertion,
  attribute_error, guard, ◌>>=◌, ◌>>◌, traverse,
}
use tiny_agent.Json.{
  Json, text, array, object, no_fields, field, find, values_of, index, get, is_true, joined,
  json_eq,
}
use tiny_agent.Staging.{is_inner}
use tiny_agent.Sources.Notices.{Entry}
use tiny_agent.Rpms.{get_member}
use tiny_agent.Crates.{identity_of}

-- `document.get(key, default)`
abbrev pub or_default : Json → Option Json → Json
or_default default none = default
or_default default (some v) = v

unfoldable pub get_or : Json → String → Json → Result Json
get_or (object fields) key default = ok (or_default default (find key fields))
get_or _ key default = err (attribute_error "get")

-- `str.lower` for ASCII letters
abbrev pub lower : ℕ → ℕ
lower c = if leb b'A' c && leb c b'Z' then c + 32 else c

unfoldable pub begins : List ℕ → List ℕ → Bool
begins [] cs = true
begins (p ∷ ps) [] = false
begins (p ∷ ps) (c ∷ cs) = p == lower c && begins ps cs

-- `path.name.lower().startswith(('license', 'copying', 'copyright', 'notice'))`
abbrev pub has_notice_name : String → Bool
has_notice_name name =
    let cs = codes (file_name (parts name)) in
    begins (codes "license") cs
    || (begins (codes "copying") cs
        || (begins (codes "copyright") cs || begins (codes "notice") cs))

-- `declared and member.name == name + '/' + declared`
abbrev pub is_declared : String → Json → String → Bool → Result Bool
is_declared name declared member false = ok false
is_declared name declared member true = do
  path ← joined (name <> "/") declared
  ok (str_eq member path)

unfoldable pub is_notice : String → Json → String → Result Bool
unfolding begins is_true joined
is_notice name declared member =
    if has_notice_name member then ok true else is_declared name declared member (is_true declared)

abbrev pub max_notice : ℕ
max_notice = 2 * 1024 * 1024

abbrev pub take_notice : String → Entry → Bool → Result (Option (String × Bytes))
take_notice name entry false = ok none
take_notice name entry true = do
  guard (leb entry.size max_notice) (assertion (name <> ": oversized notice"))
  content ← entry.content
  ok (some (entry.name, content))

abbrev pub take_file : String → Json → Entry → Bool → Result (Option (String × Bytes))
take_file name declared entry false = ok none
take_file name declared entry true = is_notice name declared entry.name >>= take_notice name entry

-- One round of the loop over the members of a crate, with what it adds to the archive.
unfoldable pub take_entry : String → Json → Entry → Result (Option (String × Bytes))
unfolding is_notice
take_entry name declared entry =
    guard (is_inner entry.name) (assertion (name <> ": invalid archive path"))
    >> take_file name declared entry entry.is_file

abbrev pub taken : List (Option (String × Bytes)) → List (String × Bytes)
taken [] = []
taken (none ∷ rest) = taken rest
taken (some found ∷ rest) = found ∷ taken rest

-- A crate with its notices; the row has their digests.
pub record Crate : Type 0 where
  pub name : String
  pub license_expression : Json
  pub declared : Json
  pub notices : List (String × Bytes)

abbrev pub crate_name : String × String → String
crate_name (name, version) = name <> ("-" <> version)

module _ (digest : Bytes → String) where
  abbrev pub member_json : String × Bytes → Json
  member_json (member, content) =
      object (field "member" (text member) (field "sha256" (text (digest content)) no_fields))

  abbrev pub crate_json : Crate → Json
  crate_json crate = object (
      field "crate" (text crate.name) (
        field "license_expression" crate.license_expression (
          field "declared_license_file" crate.declared
            (field "notices" (array (values_of (map member_json crate.notices))) no_fields))))

  module _ (untar : Bytes → Result (List Entry)) (loads : Bytes → Result Json) where
    abbrev pub read_crate : String → List Entry → Result Crate
    read_crate name entries = do
      manifest ← get_member (name <> "/Cargo.toml") entries
      content ← manifest.content
      document ← loads content
      metadata ← index document "package"
      declared ← get_or metadata "license-file" (text "")
      license ← get metadata "license"
      found ← traverse (take_entry name declared) entries
      ok (record {
        name = name;
        license_expression = license;
        declared = declared;
        notices = taken found;
      })

    -- One round of the loop over the packages.
    unfoldable pub collect_crate : List Entry → Json → Result Crate
    unfolding identity_of get_member index get_or get traverse take_entry json_eq
    collect_crate sources locked = do
      identity ← identity_of locked
      packed ← get_member ("registry/" <> (crate_name identity <> ".crate")) sources
      content ← packed.content
      expected ← index locked "sha256"
      guard (json_eq (text (digest content)) expected) (assertion (crate_name identity))
      entries ← untar content
      read_crate (crate_name identity) entries
