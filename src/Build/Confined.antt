-- ===== src/Build/Confined.antt =====
-- Rules on the files outside of a directory, for scripts/build-proot-candidate.py and scripts/build-proot-fchmodat2.py
use tiny_agent.Base.{
  FilePath, path_eq, path_eq→eq, is_relative_to, contains, eq_refl, Exception, ◌≡◌, refl, sym, ap,
  ◌∙◌, String, Bool, true, false, not, ◌&&◌, some, List, [], ◌∷◌, ◌++◌, All, Bytes, Result, ok, err,
  Bool-cases, inl, inr, arith,
}
use tiny_agent.Host.{Host, Exec, on_result, ◌>>=◌, ◌>>◌, lift, require, read, write, for_each, each}
use tiny_agent.Host.Rules.{put-other, Reads}

-- The path is below the directory, and does not go up.
abbrev pub is_inside : FilePath → FilePath → Bool
is_inside base path = is_relative_to path base && not (contains ".." path)

-- A program changes nothing outside of the directory, however it ends.
abbrev pub Keeps : {W A : Type 0} → FilePath → Exec W A → Type 0
Keeps {W} base run =
    (host : Host W) (path : FilePath)
    → is_inside base path ≡ false
    → (run host).1.files path ≡ host.files path

is_relative_to-append : (base rest : FilePath) → is_relative_to (base ++ rest) base ≡ true
unfolding is_relative_to
is_relative_to-append [] rest = refl
is_relative_to-append (part ∷ base) rest =
    ground (arith, eq_refl part, is_relative_to-append base rest)

contains-append :
    (name : String) (xs ys : List String)
    → contains name xs ≡ false
    → contains name ys ≡ false
    → contains name (xs ++ ys) ≡ false
unfolding contains
contains-append name [] ys h k = k
contains-append name (x ∷ xs) ys h k = ground (arith, contains-append name xs ys)

-- A path that is added to a directory with no ".." in its name.
pub is_inside-append :
    (base rest : FilePath)
    → contains ".." base ≡ false
    → contains ".." rest ≡ false
    → is_inside base (base ++ rest) ≡ true
is_inside-append base rest h k =
    ground (arith, is_relative_to-append base rest, contains-append ".." base rest h k)

module _ {W : Type 0} (base : FilePath) where
  pub bind-Keeps :
      {A B : Type 0} (run : Exec W A) (next : A → Exec W B)
      → Keeps base run
      → ((a : A) → Keeps base (next a))
      → Keeps base (run >>= next)
  bind-Keeps {A} run next f g host path out = onto (run host) (f host path out)
    where
      onto :
          (found : Result A × Host W)
          → found.1.files path ≡ host.files path
          → (on_result found next).1.files path ≡ host.files path
      onto (ok a, between) e = g a between path out ∙ e
      onto (err x, between) e = e

  pub then-Keeps :
      {B : Type 0} (run : Exec W (Unit {0})) (next : Exec W B)
      → Keeps base run
      → Keeps base next
      → Keeps base (run >> next)
  then-Keeps run next f g = bind-Keeps run (λ _. next) f (λ _. g)

  -- What reads a result, and goes on only if it is one.
  pub lift-Keeps :
      {A B : Type 0} (result : Result A) (next : A → Exec W B)
      → ((a : A) → result ≡ ok a → Keeps base (next a))
      → Keeps base (lift result >>= next)
  lift-Keeps (ok a) next f = f a refl
  lift-Keeps (err x) next f = λ host path out. refl

  pub read-Keeps :
      {B : Type 0} (path : FilePath) (next : Bytes → Exec W B)
      → ((content : Bytes) → Keeps base (next content))
      → Keeps base (read path >>= next)
  read-Keeps path next f = bind-Keeps (read path) next (λ host other out. refl) f

  pub require-Keeps :
      {B : Type 0} (test : Bool) (x : Exception) (next : Exec W B)
      → Keeps base next
      → Keeps base (require test x >> next)
  require-Keeps test x next f = then-Keeps (require test x) next (λ host path out. refl) f

  pub write-Keeps :
      (target : FilePath) (content : Bytes)
      → is_inside base target ≡ true
      → Keeps {W = W} base (write target content)
  write-Keeps target content inside host path out = elim (Bool-cases (path_eq target path)) [
    | inl e ↦
        absurd
          (not-both path out (ap (λ p. is_inside base p) (sym (path_eq→eq target path e)) ∙ inside))
    | inr e ↦ put-other target path (some content) host.files e
  ]
    where
      not-both : (other : FilePath) → is_inside base other ≡ false → is_inside base other ≡ true → ⊥
      not-both other h k = cc

  pub each-Keeps :
      {A : Type 0} (f : A → Exec W (Unit {0})) (xs : List A)
      → All (λ x. Keeps base (f x)) xs
      → Keeps base (each f xs)
  unfolding each
  each-Keeps f [] g = λ host path out. refl
  each-Keeps f (x ∷ xs) g = then-Keeps (f x) (each f xs) g.0 (each-Keeps f xs g.1)

  pub for_each-Keeps :
      {A B : Type 0} (f : A → Exec W B) (xs : List A)
      → ((x : A) → Keeps base (f x))
      → Keeps base (for_each f xs)
  unfolding for_each
  for_each-Keeps f [] g = λ host path out. refl
  for_each-Keeps f (x ∷ xs) g =
      bind-Keeps (f x) _ (g x)
        λ y. bind-Keeps (for_each f xs) _ (for_each-Keeps f xs g) λ ys host path out. refl

-- A program that only reads.
pub Reads-Keeps : {W A : Type 0} (base : FilePath) (run : Exec W A) → Reads run → Keeps base run
Reads-Keeps {W} base run f host path out = ap (λ (h : Host W). h.files path) (f host)

-- A rule for all members.
pub All-always : {A : Type 0} (P : A → Type 0) (xs : List A) → ((x : A) → P x) → All P xs
All-always P [] f = tt
All-always P (x ∷ xs) f = (f x, All-always P xs f)
