-- ===== src/Snapshot.antt =====
-- The snapshot of the sources: what scripts/export-private-source.py publishes with its digests, and
-- what scripts/verify-source-snapshot.py checks of an archive.
pub mod Names
pub mod Verify
pub mod Order
pub mod Sets
pub mod Gather
pub mod Export
pub mod Publish
pub mod Rounds
pub mod Allowed
use tiny_agent.Base.{
  FilePath, path_eq, parts, is_absolute, is_in, ℕ, String, Bool, not, ◌&&◌, Option, none, some,
  List, [], ◌∷◌, if◌then◌else◌, contains, Bytes, Result,
}
use tiny_agent.Json.{Json}

-- The name leads nowhere else than below the directory that it is joined to.
abbrev pub is_inside : String → Bool
is_inside name = not (is_absolute name) && not (contains ".." (parts name))

-- What stands at a path of the checkout that is published, outside of its `.git`, in which git keeps its objects.
pub data Entry : Type 0 where
  file : Bytes → Entry
  directory : Entry

abbrev pub Tree : Type 0
Tree = FilePath → Option Entry

abbrev pub put : FilePath → Entry → Tree → Tree
put path entry tree other = if path_eq path other then some entry else tree other

-- The working directory: its files, its listings, as pathlib gives them relative to it, and the
-- output of `git rev-parse HEAD`.
pub record Checkout : Type 0 where
  pub files : FilePath → Option Bytes
  pub glob : String → List String
  pub rglob : String → List String
  pub head : Result String

-- `args.apk`
pub record ApkFile : Type 0 where
  pub path : FilePath
  pub content : Option Bytes
