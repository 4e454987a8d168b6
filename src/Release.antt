-- ===== src/Release.antt =====
-- scripts/check-release.py: whether the evidence for a release is complete. The data, and
-- `checked_file`.
pub mod Rounds
pub mod Check
pub mod Evidence
pub mod Complete
pub mod Gate
pub mod Series
use Prim.Native.Char.{code}
use tiny_agent.Base.{
  occurs, FilePath, parts, is_absolute, is_relative_to, contains, ℕ, String, Bool, true, false, not,
  ◌&&◌, ◌||◌, Option, none, some, List, [], ◌∷◌, if◌then◌else◌, ◌==◌, str_eq, starts_with, length,
  Bytes, Exception, Result, ok, err, guard, type_error, value_error, ◌>>=◌, ◌>>◌,
}
use tiny_agent.Json.{Json, text, natural, negative, index, elements, json_eq}

-- `JOURNEYS`
abbrev pub journeys : List String
journeys =
    "first-install" ∷ "sessions" ∷ "self-root-adb" ∷ "fedora-development"
    ∷ "android-fedora-exchange" ∷ "interruption-recovery" ∷ "app-update" ∷ []

-- The candidate's directory: `base.resolve()`, what a path below it resolves to, and the regular
-- files.
pub record Site : Type 0 where
  pub base : FilePath
  pub resolve : FilePath → FilePath
  pub file : FilePath → Option Bytes

abbrev pub as_text : Json → Result String
as_text (text s) = ok s
as_text _ = err (type_error "expected str, bytes or os.PathLike object")

abbrev pub is_int : Json → Bool
is_int (natural n) = true
is_int (negative n) = true
is_int _ = false

-- `type(value) is int and value >= 1`, which a boolean is not.
abbrev pub positive : Json → Option ℕ
positive (natural n) = if n == 0 then none else some n
positive _ = none

abbrev pub require {ℓ} : {A : Type ℓ} → Option A → Exception → Result A
require none x = err x
require (some a) x = ok a

-- `any(c not in '0123456789abcdef' for c in value)` raises.
unfoldable pub check_digits : List Json → Result (Unit {0})
check_digits [] = ok tt
check_digits (text c ∷ rest) = do
  guard (occurs c "0123456789abcdef") (value_error "Invalid digits")
  check_digits rest
check_digits (_ ∷ rest) = err (type_error "'in <string>' requires string as left operand")

unfoldable pub check_hex : ℕ → Json → Result (Unit {0})
unfolding check_digits elements
check_hex size found = do
  digits ← elements found
  guard (length digits == size) (value_error "Invalid digits")
  check_digits digits

module _ (digest : Bytes → String) (site : Site) where
  -- The size, and then the checksum.
  unfoldable pub check_content : Json → Bytes → Result (Unit {0})
  unfolding index json_eq
  check_content found [] = err (value_error "Evidence file is empty or its checksum differs")
  check_content found (x ∷ content) = do
    sha256 ← index found "sha256"
    guard (json_eq sha256 (text (digest (x ∷ content))))
        (value_error "Evidence file is empty or its checksum differs")

  unfoldable pub checked_file : Json → Result FilePath
  unfolding check_content index contains is_relative_to
  checked_file found = do
    path ← index found "path"
    name ← as_text path
    guard (not (is_absolute name || contains ".." (parts name)))
        (value_error "Evidence paths must be relative to the candidate directory")
    guard (is_relative_to (site.resolve (parts name)) site.base)
        (value_error "Evidence file missing or outside candidate directory")
    content ←
        require (site.file (site.resolve (parts name)))
          (value_error "Evidence file missing or outside candidate directory")
    check_content found content
    ok (site.resolve (parts name))
