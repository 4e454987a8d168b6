-- ===== src/Host.antt =====
-- A program that works on files and on the world outside: state and exceptions together.
pub mod Rules
pub mod Spares
pub mod Chains
use tiny_agent.Base.{
  ℕ, ◌==◌, String, ◌<>◌, decimal, FilePath, path_eq, Bool, true, false, Option, none, some, List,
  [], ◌∷◌, if◌then◌else◌, Bytes, is_some, Exception, Result, ok, err, assertion, file_not_found,
}

abbrev pub Files : Type 0
Files = FilePath → Option Bytes

pub record Host (W : Type 0) : Type 0 where
  pub files : Files
  pub world : W

abbrev pub Exec : Type 0 → Type 0 → Type 0
Exec W A = Host W → Result A × Host W

abbrev pub on_result : {W A B : Type 0} → Result A × Host W → (A → Exec W B) → Result B × Host W
on_result (err x, host) next = (err x, host)
on_result (ok a, host) next = next a host

infixl 10 ◌>>=◌ ◌>>◌
abbrev pub ◌>>=◌ : {W A B : Type 0} → Exec W A → (A → Exec W B) → Exec W B
◌>>=◌ run next host = on_result (run host) next

abbrev pub ◌>>◌ : {W B : Type 0} → Exec W (Unit {0}) → Exec W B → Exec W B
◌>>◌ run next host = on_result (run host) (λ _. next)

abbrev pub pure : {W A : Type 0} → A → Exec W A
pure a host = (ok a, host)

abbrev pub lift : {W A : Type 0} → Result A → Exec W A
lift result host = (result, host)

-- How a process ended: `str(returncode)` of one that a signal ended has a sign.
pub data ExitCode : Type 0 where
  exited : ℕ → ExitCode
  signalled : ℕ → ExitCode

abbrev pub is_success : ExitCode → Bool
is_success (exited n) = n == 0
is_success (signalled n) = false

abbrev pub code_text : ExitCode → String
code_text (exited n) = decimal n
code_text (signalled n) = "-" <> decimal n

-- `assert test, message`, or `if not test: raise x`
abbrev pub require : {W : Type 0} → Bool → Exception → Exec W (Unit {0})
require test x host = (elim test [ true ↦ ok tt | false ↦ err x ], host)

abbrev pub or_missing : Option Bytes → Result Bytes
or_missing none = err (file_not_found "")
or_missing (some content) = ok content

abbrev pub put : FilePath → Option Bytes → Files → Files
put path found files other = if path_eq path other then found else files other

-- `path.read_bytes()`
abbrev pub read : {W : Type 0} → FilePath → Exec W Bytes
read path host = (or_missing (host.files path), host)

-- `path.exists()`, for what is no directory
abbrev pub exists : {W : Type 0} → FilePath → Exec W Bool
exists path host = (ok (is_some (host.files path)), host)

-- `path.write_bytes(content)`
abbrev pub write : {W : Type 0} → FilePath → Bytes → Exec W (Unit {0})
write path content host = (ok tt, record host { files = put path (some content) host.files })

-- `path.replace(target)`
abbrev pub replace : {W : Type 0} → FilePath → FilePath → Exec W (Unit {0})
replace path target host = elim (host.files path) [
  | none ↦ (err (file_not_found ""), host)
  | some content ↦
      (ok tt, record host { files = put target (some content) (put path none host.files) })
]

-- A call that may change the world outside.
abbrev pub call : {W A : Type 0} → (W → Result A × W) → Exec W A
call f host = let (result, world) = f host.world in (result, record host { world = world })

-- A loop with what its rounds give.
unfoldable pub for_each : {W A B : Type 0} → (A → Exec W B) → List A → Exec W (List B)
for_each f [] = pure []
for_each f (x ∷ xs) = f x >>= λ y. for_each f xs >>= λ ys. pure (y ∷ ys)

-- A loop for what its rounds do.
unfoldable pub each : {W A : Type 0} → (A → Exec W (Unit {0})) → List A → Exec W (Unit {0})
each f [] = pure tt
each f (x ∷ xs) = f x >> each f xs

-- `try:` with an `except Exception as error:` that goes on.
abbrev pub attempt : {W A : Type 0} → Exec W A → Exec W (Result A)
attempt run host = (ok (run host).0, (run host).1)
