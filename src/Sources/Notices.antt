-- ===== src/Sources/Notices.antt =====
-- The notices of an archive in scripts/collect-proot-sources.py
use tiny_agent.Base.{
  parts, file_name, codes, take, bytes_eq, length, ℕ, ◌-◌, ◌*◌, String, ◌<>◌, decimal, Bool, ◌&&◌,
  ◌||◌, List, [], ◌∷◌, map, ltb, leb, ◌==◌, if◌then◌else◌, ends_with, Bytes, Result, ok, assertion,
  guard, ◌>>=◌, ◌>>◌,
}

-- An entry of an archive of either kind: whether it is a file, its size, and its content.
pub record Entry : Type 0 where
  pub name : String
  pub is_file : Bool
  pub size : ℕ
  pub content : Result Bytes

-- `str.upper` where it gives an ASCII letter: the small letters, ı and ſ.
abbrev pub upper : ℕ → ℕ
upper c =
    if leb b'a' c && leb c b'z'
    then c - 32
    else if c == 305
    then b'I'
    else if c == 383
    then b'S'
    else c

abbrev pub has_prefix : List ℕ → List ℕ → Bool
has_prefix prefix cs = bytes_eq (take (length prefix) cs) prefix

unfoldable pub is_notice_name : String → Bool
unfolding bytes_eq
is_notice_name name =
    let cs = map upper (codes (file_name (parts name))) in
    has_prefix (codes "COPYING") cs || has_prefix (codes "LICENSE") cs

abbrev pub add_notice : Entry → Result (List (String × Bytes)) → Result (List (String × Bytes))
add_notice entry rest = do
  guard (ltb entry.size (1024 * 1024)) (assertion "")
  content ← entry.content
  more ← rest
  ok ((entry.name, content) ∷ more)

-- The loop over the entries: the names and the contents of the notices.
unfoldable pub find_notices : List Entry → Result (List (String × Bytes))
unfolding is_notice_name
find_notices [] = ok []
find_notices (entry ∷ entries) =
    let rest = find_notices entries in
    if entry.is_file && is_notice_name entry.name then add_notice entry rest else rest

-- The readers of both kinds of archives.
module _ (unzip : Bytes → Result (List Entry)) (untar : Bytes → Result (List Entry)) where
  unfoldable pub archive_notices : String → Bytes → Result (List (String × Bytes))
  unfolding find_notices
  archive_notices name content =
      (if ends_with name ".zip" then unzip content else untar content) >>= find_notices

-- `dict(source_member=..., file=..., sha256=...)`
pub record Notice : Type 0 where
  pub source_member : String
  pub file : String
  pub sha256 : String

abbrev pub notice_file : String → ℕ → String
notice_file name index = name <> ("." <> (decimal index <> ".license.txt"))
