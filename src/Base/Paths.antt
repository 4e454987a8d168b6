-- ===== src/Base/Paths.antt =====
-- Paths as the lists of their parts, as pathlib reads them.
use Prim.Native.Char.{code}
use Prim.Native.Nat.{ℕ}
use mathlib.Core.Option.{Option, none, some}
use Prim.Native.String.{String}
use mathlib.Core.Path.{◌≡◌, refl}
use mathlib.Core.Bool.{Bool, true, false, ◌&&◌}
use mathlib.Core.List.{List, [], ◌∷◌, map}
use native.Mathlib.Omega.{arith}
use text.Mathlib.Text.{◌==◌ as str_eq, starts_with}
use text.Mathlib.TextEquality.{eq_iff}
use text.Mathlib.TextPositions.{eq_refl}
use tiny_agent.Base.Tests.{◌==◌, if◌then◌else◌}

-- A path below some directory.
abbrev pub FilePath : Type 0
FilePath = List String

unfoldable pub path_eq : FilePath → FilePath → Bool
path_eq [] [] = true
path_eq (a ∷ p) (b ∷ q) = str_eq a b && path_eq p q
path_eq _ _ = false

pub path_eq→eq : (p q : FilePath) → path_eq p q ≡ true → p ≡ q
unfolding path_eq
path_eq→eq [] [] h = refl
path_eq→eq [] (b ∷ q) h = ground arith
path_eq→eq (a ∷ p) [] h = ground arith
path_eq→eq (a ∷ p) (b ∷ q) h = ground (arith, eq_iff a b, path_eq→eq p q)

pub path_eq_refl : (p : FilePath) → path_eq p p ≡ true
unfolding path_eq
path_eq_refl [] = refl
path_eq_refl (a ∷ p) = ground (arith, eq_refl a, path_eq_refl p)

-- The path lies below `base`, or is `base`.
unfoldable pub is_relative_to : FilePath → FilePath → Bool
is_relative_to path [] = true
is_relative_to [] (b ∷ base) = false
is_relative_to (a ∷ path) (b ∷ base) = str_eq a b && is_relative_to path base

unfoldable pub is_in : FilePath → List FilePath → Bool
unfolding path_eq
is_in p [] = false
is_in p (q ∷ qs) = if path_eq p q then true else is_in p qs

-- `text.split(separator)`, for one character
abbrev pub split : ℕ → String → List String
split separator String.[] = "" ∷ []
split separator (String.◌∷◌ c s) = elim (split separator s) [
  | [] ↦ []
  | head ∷ rest ↦ if code c == separator then "" ∷ (head ∷ rest) else String.◌∷◌ c head ∷ rest
]

-- Empty parts and single dots are dropped.
abbrev pub parts_of : List String → FilePath
parts_of [] = []
parts_of (part ∷ rest) =
    let more = parts_of rest in
    if str_eq part "" then more else if str_eq part "." then more else part ∷ more

abbrev pub parts : String → FilePath
parts text = parts_of (split b'/' text)

abbrev pub is_absolute : String → Bool
is_absolute text = starts_with text "/"

abbrev pub file_name : FilePath → String
file_name [] = ""
file_name (part ∷ []) = part
file_name (part ∷ next ∷ rest) = file_name (next ∷ rest)

-- The text from its last '.' on.
abbrev last_dot : String → Option String
last_dot String.[] = none
last_dot (String.◌∷◌ c s) = elim (last_dot s) [
  | some found ↦ some found
  | none ↦ if code c == b'.' then some (String.◌∷◌ c s) else none
]

abbrev or_no_suffix : Option String → String
or_no_suffix none = ""
or_no_suffix (some s) = if str_eq s "." then "" else s

-- `PurePath(name).suffix`: the dot is neither the first character nor the last.
abbrev pub suffix : String → String
suffix String.[] = ""
suffix (String.◌∷◌ c s) = or_no_suffix (last_dot s)

-- A dictionary with paths as its keys.
module _ {ℓ} {V : Type ℓ} where
  unfoldable pub lookup : FilePath → List (FilePath × V) → Option V
  unfolding path_eq
  lookup path [] = none
  lookup path ((p, v) ∷ rest) = if path_eq path p then some v else lookup path rest

  abbrev pub is_some : Option V → Bool
  is_some none = false
  is_some (some v) = true

  unfoldable pub has : FilePath → List (FilePath × V) → Bool
  unfolding lookup
  has path rows = is_some (lookup path rows)

-- `PurePath.parents`: the proper beginnings of a path.
abbrev pub ancestors : FilePath → List FilePath
ancestors [] = []
ancestors (part ∷ rest) = [] ∷ map (λ p. part ∷ p) (ancestors rest)
