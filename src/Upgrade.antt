-- ===== src/Upgrade.antt =====
-- scripts/upgrade-dnfast-empty.py and scripts/upgrade-dnfast-checked.py: the upgrade of an
-- installed package runtime. The data, and the files below the root.
pub mod Files
pub mod Publish
pub mod Package
pub mod Opened
pub mod State
pub mod Checks
pub mod Logs
pub mod Kept
pub mod Order
pub mod Writes
pub mod Run
pub mod Verified
use tiny_agent.Base.{
  FilePath, path_eq, ℕ, String, ◌≡◌, refl, ap, ap₂, Bool, true, false, ◌&&◌, Option, List, [], ◌∷◌,
  ◌++◌, if◌then◌else◌, str_eq, eq_iff, eq_refl, Bytes, Exception, Result, ok, err, arith,
}

-- What stands at a path: a directory, a regular file with its number of links, or anything else.
pub data Node : Type 0 where
  directory : (uid mode : ℕ) → Node
  regular : (uid mode links : ℕ) → Bytes → Node
  other : Node

abbrev pub Disk : Type 0
Disk = FilePath → Option Node

abbrev pub put : FilePath → Option Node → Disk → Disk
put p node disk q = if path_eq p q then node else disk q

-- The disk, and the files that were published, in order.
pub record Root : Type 0 where
  pub disk : Disk
  pub published : List (FilePath × Bytes)

-- A program that works on the root and may raise; what it wrote before stays written.
abbrev pub Exec {ℓ} : Type ℓ → Type ℓ
Exec A = Root → Root × Result A

abbrev pub on_result {ℓ κ} :
    {A : Type ℓ} {B : Type κ} → Root → Result A → (A → Root → Root × Result B) → Root × Result B
on_result root (err x) next = (root, err x)
on_result root (ok value) next = next value root

infixl 10 ◌>>=◌ ◌>>◌
abbrev pub ◌>>=◌ {ℓ κ} : {A : Type ℓ} {B : Type κ} → Exec A → (A → Exec B) → Exec B
◌>>=◌ run next root = let (after, result) = run root in on_result after result next

abbrev pub ◌>>◌ {κ} : {B : Type κ} → Exec (Unit {0}) → Exec B → Exec B
run >> next = run >>= λ _. next

abbrev pub pure {ℓ} : {A : Type ℓ} → A → Exec A
pure value root = (root, ok value)

abbrev pub raise {ℓ} : {A : Type ℓ} → Exception → Exec A
raise x root = (root, err x)

-- A part that only reads the disk.
abbrev pub reading {ℓ} : {A : Type ℓ} → (Disk → Result A) → Exec A
reading f root = (root, f root.disk)

abbrev pub lift {ℓ} : {A : Type ℓ} → Result A → Exec A
lift result root = (root, result)

abbrev pub guard : Bool → Exception → Exec (Unit {0})
guard test x root = (root, elim test [ true ↦ ok tt | false ↦ err x ])
