-- ===== src/Host/Rules.antt =====
-- Rules on the steps of a program of Host that returns.
use tiny_agent.Base.{
  sym, ◌∙◌, FilePath, path_eq, path_eq_refl, ◌≡◌, refl, ap, subst, Bool, true, false, Option, none,
  some, List, [], ◌∷◌, Bytes, Exception, Result, ok, err, ok_injective,
}
use tiny_agent.Host.{
  Files, Host, Exec, on_result, ◌>>=◌, ◌>>◌, pure, lift, require, or_missing, put, read, for_each,
}

-- Inversion, with the rest of a proof as an argument.
module _ {κ} {W B : Type 0} {Goal : Type κ} where
  pub bind-ok :
      {A : Type 0} (run : Exec W A) (next : A → Exec W B) (host : Host W) {end : B} {after : Host W}
      → (run >>= next) host ≡ (ok end, after)
      → ((a : A) (between : Host W)
          → run host ≡ (ok a, between)
          → next a between ≡ (ok end, after)
          → Goal)
      → Goal
  bind-ok {A} run next host {end} {after} h go = onto (run host) refl h
    where
      onto :
          (found : Result A × Host W)
          → run host ≡ found
          → on_result found next ≡ (ok end, after)
          → Goal
      onto (ok a, between) e k = go a between e k
      onto (err x, between) e k = cc

  pub then-ok :
      (run : Exec W (Unit {0})) (next : Exec W B) (host : Host W) {end : B} {after : Host W}
      → (run >> next) host ≡ (ok end, after)
      → ((between : Host W) → run host ≡ (ok tt, between) → next between ≡ (ok end, after) → Goal)
      → Goal
  then-ok run next host {end} {after} h go = onto (run host) refl h
    where
      onto :
          (found : Result (Unit {0}) × Host W)
          → run host ≡ found
          → on_result found (λ _. next) ≡ (ok end, after)
          → Goal
      onto (ok tt, between) e k = go between e k
      onto (err x, between) e k = cc

  pub require-ok :
      (test : Bool) (x : Exception) (next : Exec W B) (host : Host W) {end : B} {after : Host W}
      → (require test x >> next) host ≡ (ok end, after)
      → (test ≡ true → next host ≡ (ok end, after) → Goal)
      → Goal
  require-ok true x next host h go = go refl h
  require-ok false x next host h go = cc

  pub lift-ok :
      {A : Type 0} (result : Result A) (next : A → Exec W B) (host : Host W) {end : B}
      {after : Host W}
      → (lift result >>= next) host ≡ (ok end, after)
      → ((a : A) → result ≡ ok a → next a host ≡ (ok end, after) → Goal)
      → Goal
  lift-ok (ok a) next host h go = go a refl h
  lift-ok (err x) next host h go = cc

  pub read-ok :
      (path : FilePath) (next : Bytes → Exec W B) (host : Host W) {end : B} {after : Host W}
      → (read path >>= next) host ≡ (ok end, after)
      → ((content : Bytes)
          → host.files path ≡ some content
          → next content host ≡ (ok end, after)
          → Goal)
      → Goal
  read-ok path next host {end} {after} h go = onto (host.files path) refl h
    where
      onto :
          (found : Option Bytes)
          → host.files path ≡ found
          → on_result (or_missing found, host) next ≡ (ok end, after)
          → Goal
      onto none e k = cc
      onto (some content) e k = go content e k

pub require-end :
    {W : Type 0} (test : Bool) (x : Exception) (host after : Host W)
    → require test x host ≡ (ok tt, after)
    → (test ≡ true) × (host ≡ after)
require-end {W} true x host after h = (refl, ap (λ (p : Result (Unit {0}) × Host W). p.1) h)
require-end false x host after h = cc

pub lift-end :
    {W A : Type 0} (result : Result A) (a : A) (host after : Host W)
    → lift result host ≡ (ok a, after)
    → (result ≡ ok a) × (host ≡ after)
lift-end {W} {A} result a host after h =
    (ap (λ (p : Result A × Host W). p.0) h, ap (λ (p : Result A × Host W). p.1) h)

-- A check that passes.
pub lift-then-ok {κ} :
    {W B : Type 0} {Goal : Type κ} (result : Result (Unit {0})) (next : Exec W B) (host : Host W)
    {end : B} {after : Host W}
    → (lift result >> next) host ≡ (ok end, after)
    → (result ≡ ok tt → next host ≡ (ok end, after) → Goal)
    → Goal
lift-then-ok (ok tt) next host h go = go refl h
lift-then-ok (err x) next host h go = cc

-- What holds of the host however a program ends.
module _ {W A B : Type 0} (P : Host W → Type 0) where
  pub bind-after :
      (run : Exec W A) (next : A → Exec W B) (host : Host W)
      → ((x : Exception) (between : Host W) → run host ≡ (err x, between) → P between)
      → ((a : A) (between : Host W) → run host ≡ (ok a, between) → P (next a between).1)
      → P ((run >>= next) host).1
  bind-after run next host fails goes = onto (run host) refl
    where
      onto : (found : Result A × Host W) → run host ≡ found → P (on_result found next).1
      onto (ok a, between) e = goes a between e
      onto (err x, between) e = fails x between e

pub then-after :
    {W B : Type 0} (P : Host W → Type 0) (run : Exec W (Unit {0})) (next : Exec W B) (host : Host W)
    → ((x : Exception) (between : Host W) → run host ≡ (err x, between) → P between)
    → ((between : Host W) → run host ≡ (ok tt, between) → P (next between).1)
    → P ((run >> next) host).1
then-after {W} P run next host fails goes = onto (run host) refl
  where
    onto :
        (found : Result (Unit {0}) × Host W) → run host ≡ found → P (on_result found (λ _. next)).1
    onto (ok tt, between) e = goes between e
    onto (err x, between) e = fails x between e

pub put-same :
    (path : FilePath) (found : Option Bytes) (files : Files) → put path found files path ≡ found
put-same path found files = rw (path_eq_refl path) refl

pub put-other :
    (path other : FilePath) (found : Option Bytes) (files : Files)
    → path_eq path other ≡ false
    → put path found files other ≡ files other
put-other path other found files e = rw e refl

pub pure-ok :
    {W A : Type 0} (a b : A) (host after : Host W)
    → pure a host ≡ (ok b, after)
    → (a ≡ b) × (host ≡ after)
pure-ok {W} {A} a b host after h = (
  ok_injective a b (ap (λ (p : Result A × Host W). p.0) h),
  ap (λ (p : Result A × Host W). p.1) h,
)

-- The rounds of a loop that returns, with what they give.
abbrev pub AreRounds : {A B : Type 0} → (A → B → Type 0) → List A → List B → Type 0
AreRounds R [] [] = Unit
AreRounds R (x ∷ xs) (y ∷ ys) = R x y × AreRounds R xs ys
AreRounds R _ _ = ⊥

pub for_each-AreRounds :
    {W A B : Type 0} (R : A → B → Type 0) (f : A → Exec W B)
    (round : (x : A) (y : B) (host after : Host W) → f x host ≡ (ok y, after) → R x y) (xs : List A)
    (ys : List B) (host after : Host W)
    → for_each f xs host ≡ (ok ys, after)
    → AreRounds R xs ys
unfolding for_each
for_each-AreRounds R f round [] ys host after h =
    subst (AreRounds R []) (pure-ok [] ys host after h).0 tt
for_each-AreRounds R f round (x ∷ xs) ys host after h = bind-ok (f x) _ host h λ y between e h1.
    bind-ok (for_each f xs) _ between h1 λ rest last r h2.
      subst (AreRounds R (x ∷ xs)) (pure-ok (y ∷ rest) ys last after h2).0
        (round x y host between e, for_each-AreRounds R f round xs rest between last r)

-- A program that changes nothing.
abbrev pub Reads : {W A : Type 0} → Exec W A → Type 0
Reads {W} run = (host : Host W) → (run host).1 ≡ host

module _ {W B : Type 0} where
  pub bind-Reads :
      {A : Type 0} (run : Exec W A) (next : A → Exec W B)
      → Reads run
      → ((a : A) → Reads (next a))
      → Reads (run >>= next)
  bind-Reads {A} run next f g host = onto (run host) (f host)
    where
      onto : (found : Result A × Host W) → found.1 ≡ host → (on_result found next).1 ≡ host
      onto (ok a, between) e = g a between ∙ e
      onto (err x, between) e = e

  pub then-Reads :
      (run : Exec W (Unit {0})) (next : Exec W B) → Reads run → Reads next → Reads (run >> next)
  then-Reads run next f g = bind-Reads run (λ _. next) f (λ _. g)

pub for_each-Reads :
    {W A B : Type 0} (f : A → Exec W B) (xs : List A)
    → ((x : A) → Reads (f x))
    → Reads (for_each f xs)
unfolding for_each
for_each-Reads f [] g = λ host. refl
for_each-Reads f (x ∷ xs) g =
    bind-Reads (f x) _ (g x)
      λ y. bind-Reads (for_each f xs) _ (for_each-Reads f xs g) λ ys host. refl

pub Reads-eq :
    {W A : Type 0} (run : Exec W A) (host after : Host W) (a : A)
    → Reads run
    → run host ≡ (ok a, after)
    → host ≡ after
Reads-eq {W} {A} run host after a f h = sym (f host) ∙ ap (λ (p : Result A × Host W). p.1) h
