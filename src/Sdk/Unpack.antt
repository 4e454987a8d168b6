-- ===== src/Sdk/Unpack.antt =====
-- `unpack` of scripts/prepare-android-sdk-fedora.py
use tiny_agent.Base.{
  FilePath, parts, ℕ, ◌/◌, ◌%◌, String, Bool, not, ◌&&◌, ◌||◌, Option, none, some, List, [], ◌∷◌,
  ◌==◌, if◌then◌else◌, contains, starts_with, Bytes, Result, ok, err, assertion, guard, ◌>>=◌, ◌>>◌,
  ends_with,
}

-- An entry of a zip archive.
pub record ZipMember : Type 0 where
  pub filename : String
  pub is_dir : Bool
  pub content : Result Bytes
  pub external_attr : ℕ

-- A file that was unpacked, with its mode.
pub record Unpacked : Type 0 where
  pub path : FilePath
  pub content : Bytes
  pub mode : ℕ

abbrev pub Tree : Type 0
Tree = List Unpacked

-- `(attr >> 16) & 0o111`: a bit of execution is set.
abbrev pub is_executable : ℕ → Bool
is_executable attr =
    let mode = attr / 65536 in mode % 2 == 1 || mode / 8 % 2 == 1 || mode / 64 % 2 == 1

abbrev pub is_safe_name : String → Bool
is_safe_name name = not (starts_with name "/") && not (contains ".." (parts name))

-- One round of the loop over the entries; a directory gives no file.
abbrev pub place : ZipMember → Bytes → Unpacked
place entry content = record {
  path = parts entry.filename;
  content = content;
  mode = if is_executable entry.external_attr then 0o755 else 0o644;
}

unfoldable pub extract_entry : ZipMember → Result (Option Unpacked)
extract_entry entry = do
  guard (is_safe_name entry.filename) (assertion "")
  content ← entry.content
  ok (if entry.is_dir then none else some (place entry content))

abbrev pub add_file : Option Unpacked → Tree → Tree
add_file none tree = tree
add_file (some found) tree = found ∷ tree

unfoldable pub extract_entries : List ZipMember → Result Tree
unfolding extract_entry
extract_entries [] = ok []
extract_entries (entry ∷ entries) = do
  found ← extract_entry entry
  tree ← extract_entries entries
  ok (add_file found tree)

-- The archives of the standard library: a tape archive under the filter for data, and the entries
-- of a zip archive.
module _ (extractall : Bytes → Result Tree) (infolist : Bytes → Result (List ZipMember)) where
  abbrev pub is_tar : String → Bool
  is_tar name = ends_with name ".xz" || ends_with name ".tar.gz"

  unfoldable pub extract : String → Bytes → Result Tree
  unfolding extract_entries
  extract name content =
      if is_tar name then extractall content else (infolist content >>= extract_entries)

  abbrev pub settle_tree : Result Tree → Result (Unit {0}) × Option Tree
  settle_tree (err x) = (err x, none)
  settle_tree (ok tree) = (ok tt, some tree)

  -- What stands at the destination afterwards: a failure leaves nothing of what was unpacked.
  unfoldable pub unpack : String → Result Bytes → Option Tree → Result (Unit {0}) × Option Tree
  unfolding extract
  unpack name archive (some tree) = (ok tt, some tree)
  unpack name archive none = settle_tree (archive >>= extract name)
