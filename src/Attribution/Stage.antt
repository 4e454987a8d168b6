-- ===== src/Attribution/Stage.antt =====
-- scripts/stage-dnfast-rpm-notices.py
use tiny_agent.Base.{
  FilePath, parts, ◌++◌, String, ◌<>◌, Bool, true, false, not, ◌&&◌, ◌||◌, List, [], ◌∷◌,
  if◌then◌else◌, str_eq, Bytes, Result, ok, err, value_error, type_error, key_error, guard, ◌>>=◌,
  ◌>>◌,
}
use tiny_agent.Json.{Json, text, index, elements, is_hashable, same_set, json_eq}
use tiny_agent.Staging.{TapeMember, is_inner}

-- The digests by the names of the members, as the report has them.
abbrev pub Table : Type 0
Table = List (Json × Json)

abbrev pub put_digest : Json → Json → Table → Table
put_digest member digest [] = (member, digest) ∷ []
put_digest member digest ((key, found) ∷ rest) =
    if json_eq member key
    then (key, digest) ∷ rest
    else (key, found) ∷ put_digest member digest rest

abbrev pub digest_of : String → Table → Result Json
digest_of name [] = err (key_error name)
digest_of name ((key, found) ∷ rest) =
    if json_eq (text name) key then ok found else digest_of name rest

abbrev pub members_of : Table → List Json
members_of [] = []
members_of ((key, found) ∷ rest) = key ∷ members_of rest

abbrev pub is_ok : {A : Type 0} → Result A → Bool
is_ok (ok a) = true
is_ok (err x) = false

-- A loop that changes a value.
unfoldable pub fold_ok : {A B : Type 0} → (A → B → Result B) → List A → B → Result B
fold_ok f [] b = ok b
fold_ok f (x ∷ xs) b = f x b >>= fold_ok f xs

abbrev pub expect_notice : Json → Table → Result Table
expect_notice notice table = do
  member ← index notice "member"
  digest ← index notice "sha256"
  guard (is_hashable member) (type_error "unhashable type")
  ok (put_digest member digest table)

abbrev pub expect_row : Json → Table → Result Table
expect_row row table = do
  found ← index row "notices"
  notices ← elements found
  fold_ok expect_notice notices table

-- `expected`
unfoldable pub expected_of : Json → Result Table
unfolding index elements json_eq fold_ok
expected_of report = do
  found ← index report "packages"
  rows ← elements found
  fold_ok expect_row rows []

-- `payloads`
abbrev pub Payloads : Type 0
Payloads = List (String × Bytes)

unfoldable pub has_payload : String → Payloads → Bool
has_payload name [] = false
has_payload name ((key, content) ∷ rest) = str_eq name key || has_payload name rest

abbrev pub payload_names : Payloads → List Json
payload_names [] = []
payload_names ((key, content) ∷ rest) = text key ∷ payload_names rest

abbrev pub is_valid : Table → Payloads → TapeMember → Bool
is_valid expected payloads member =
    member.is_file
    && (is_inner member.name
        && (not (has_payload member.name payloads) && is_ok (digest_of member.name expected)))

abbrev pub notice_path : String → FilePath
notice_path name = "app" ∷ "src" ∷ "main" ∷ "assets" ∷ "licenses" ∷ "dnfast-rpm" ∷ parts name

module _ (digest : Bytes → String) where
  abbrev pub take_member : Table → TapeMember → Payloads → Result Payloads
  take_member expected member payloads = do
    guard (is_valid expected payloads member)
        (value_error ("Invalid notice member: " <> member.name))
    content ← member.content
    wanted ← digest_of member.name expected
    guard (json_eq (text (digest content)) wanted)
        (value_error ("Notice digest mismatch: " <> member.name))
    ok (payloads ++ ((member.name, content) ∷ []))

  -- The payloads of the archive, which are those that the report lists.
  unfoldable pub read_payloads : (Bytes → Result (List TapeMember)) → Json → Bytes → Result Payloads
  unfolding index expected_of fold_ok has_payload same_set json_eq
  read_payloads untar report archive = do
    wanted ← index report "notice_archive_sha256"
    guard (json_eq (text (digest archive)) wanted) (value_error "Notice archive hash mismatch")
    expected ← expected_of report
    members ← untar archive
    payloads ← fold_ok (take_member expected) members []
    guard (same_set (payload_names payloads) (members_of expected)) (value_error "Missing notices")
    ok payloads
