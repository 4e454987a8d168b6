-- ===== src/Fedora.antt =====
-- scripts/prepare-fedora.py: the staging of a pinned container image. The data of an archive, and
-- `safe_members`.
pub mod Image
pub mod Safe
pub mod Staged
use tiny_agent.Base.{
  FilePath, path_eq, lookup, has, ancestors, parts, is_absolute, contains, String, Bool, true,
  false, not, ◌&&◌, ◌||◌, Option, none, some, List, [], ◌∷◌, ◌++◌, map, starts_with, Result, ok,
  err, guard, value_error, ◌>>=◌, ◌>>◌,
}

-- The type of an archive member, with the target of a link.
pub data Kind : Type 0 where
  regular directory : Kind
  symlink hardlink : String → Kind
  other : Kind

pub record Member : Type 0 where
  pub name : String
  pub kind : Kind

-- `names`
abbrev pub Names : Type 0
Names = List (FilePath × Kind)

abbrev pub is_supported : Kind → Bool
is_supported other = false
is_supported _ = true

abbrev pub is_directory : Kind → Bool
is_directory directory = true
is_directory _ = false

abbrev pub is_regular : Option Kind → Bool
is_regular (some regular) = true
is_regular _ = false

abbrev pub is_empty : FilePath → Bool
is_empty [] = true
is_empty (part ∷ rest) = false

-- `any(p.startswith('.wh.') for p in path.parts)`
unfoldable pub has_whiteout : FilePath → Bool
has_whiteout [] = false
has_whiteout (part ∷ rest) = starts_with part ".wh." || has_whiteout rest

abbrev pub is_unsafe : String → Bool
is_unsafe name = is_absolute name || (contains ".." (parts name) || is_empty (parts name))

-- The first loop.
unfoldable pub collect : List Member → Names → Result Names
unfolding has contains has_whiteout
collect [] names = ok names
collect (m ∷ ms) names = do
  guard (not (is_unsafe m.name)) (value_error "Unsafe archive member path")
  guard (not (has (parts m.name) names || has_whiteout (parts m.name)))
      (value_error "Duplicate path or unsupported whiteout")
  guard (is_supported m.kind) (value_error "Unsupported archive member type")
  collect ms (names ++ ((parts m.name, m.kind) ∷ []))

abbrev pub is_no_directory : Option Kind → Bool
is_no_directory none = false
is_no_directory (some kind) = not (is_directory kind)

-- `any(parent in names and not names[parent].isdir() for parent in path.parents)`
unfoldable pub is_blocked : Names → List FilePath → Bool
unfolding lookup
is_blocked names [] = false
is_blocked names (parent ∷ parents) =
    is_no_directory (lookup parent names) || is_blocked names parents

-- `names.get(PurePosixPath(target))`: an absolute path is no key.
abbrev pub target_of : Names → String → Option Kind
target_of names target = elim (is_absolute target) [
  | true ↦ none
  | false ↦ lookup (parts target) names
]

abbrev pub has_target : Names → Kind → Bool
has_target names (hardlink target) = is_regular (target_of names target)
has_target names _ = true

-- The second loop.
unfoldable pub check_names : Names → Names → Result (Unit {0})
unfolding is_blocked lookup
check_names names [] = ok tt
check_names names ((path, kind) ∷ rest) = do
  guard (not (is_blocked names (ancestors path)))
      (value_error "Archive writes through a non-directory ancestor")
  guard (has_target names kind) (value_error "Hardlink must target an archive regular file")
  check_names names rest

unfoldable pub safe_members : List Member → Result (Unit {0})
unfolding collect check_names
safe_members members = do names ← collect members []; check_names names names
