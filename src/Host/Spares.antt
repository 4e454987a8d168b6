-- ===== src/Host/Spares.antt =====
-- Rules on one file that a program of Host leaves as it is.
use tiny_agent.Base.{
  FilePath, path_eq, ◌≡◌, refl, ◌∙◌, Bool, false, Option, none, some, List, [], ◌∷◌, Bytes,
  Exception, Result, ok, err,
}
use tiny_agent.Host.{
  Host, Exec, put, on_result, ◌>>=◌, ◌>>◌, lift, require, read, write, replace, call, attempt,
  for_each,
}
use tiny_agent.Host.Rules.{put-other}
use tiny_agent.Staging.{publish}

abbrev pub Spares : {W A : Type 0} → FilePath → Exec W A → Type 0
Spares {W} path run = (host : Host W) → (run host).1.files path ≡ host.files path

module _ {W : Type 0} (path : FilePath) where
  pub bind-Spares :
      {A B : Type 0} (run : Exec W A) (next : A → Exec W B)
      → Spares path run
      → ((a : A) → Spares path (next a))
      → Spares path (run >>= next)
  bind-Spares {A} run next f g host = onto (run host) (f host)
    where
      onto :
          (found : Result A × Host W)
          → found.1.files path ≡ host.files path
          → (on_result found next).1.files path ≡ host.files path
      onto (ok a, between) e = g a between ∙ e
      onto (err x, between) e = e

  pub then-Spares :
      {B : Type 0} (run : Exec W (Unit {0})) (next : Exec W B)
      → Spares path run
      → Spares path next
      → Spares path (run >> next)
  then-Spares run next f g = bind-Spares run (λ _. next) f (λ _. g)

  pub read-Spares :
      {B : Type 0} (other : FilePath) (next : Bytes → Exec W B)
      → ((content : Bytes) → Spares path (next content))
      → Spares path (read other >>= next)
  read-Spares other next f = bind-Spares (read other) next (λ host. refl) f

  pub lift-Spares :
      {A B : Type 0} (result : Result A) (next : A → Exec W B)
      → ((a : A) → Spares path (next a))
      → Spares path (lift result >>= next)
  lift-Spares result next f = bind-Spares (lift result) next (λ host. refl) f

  pub lift-then-Spares :
      {B : Type 0} (result : Result (Unit {0})) (next : Exec W B)
      → Spares path next
      → Spares path (lift result >> next)
  lift-then-Spares result next f = then-Spares (lift result) next (λ host. refl) f

  pub require-Spares :
      {B : Type 0} (test : Bool) (x : Exception) (next : Exec W B)
      → Spares path next
      → Spares path (require test x >> next)
  require-Spares test x next f = then-Spares (require test x) next (λ host. refl) f

  pub call-Spares : {A : Type 0} (f : W → Result A × W) → Spares path (call f)
  call-Spares f host = refl

  pub attempt-Spares : {A : Type 0} (run : Exec W A) → Spares path run → Spares path (attempt run)
  attempt-Spares run f host = f host

  pub write-Spares :
      (target : FilePath) (content : Bytes)
      → path_eq target path ≡ false
      → Spares {W = W} path (write target content)
  write-Spares target content e host = put-other target path (some content) host.files e

  pub replace-Spares :
      (source target : FilePath)
      → path_eq source path ≡ false
      → path_eq target path ≡ false
      → Spares {W = W} path (replace source target)
  replace-Spares source target e f host = onto (host.files source) refl
    where
      onto :
          (found : Option Bytes)
          → host.files source ≡ found
          → (replace source target host).1.files path ≡ host.files path
      onto none h = rw (h, replace) refl
      onto (some content) h =
          rw (h, replace)
            (put-other target path (some content) (put source none host.files) f
              ∙ put-other source path none host.files e)

  pub publish-Spares :
      (partial target : FilePath) (content : Bytes)
      → path_eq partial path ≡ false
      → path_eq target path ≡ false
      → Spares {W = W} path (publish partial target content)
  unfolding publish
  publish-Spares partial target content e f =
      then-Spares (write partial content) (replace partial target) (write-Spares partial content e)
        (replace-Spares partial target e f)

  pub for_each-Spares :
      {A B : Type 0} (f : A → Exec W B) (xs : List A)
      → ((x : A) → Spares path (f x))
      → Spares path (for_each f xs)
  unfolding for_each
  for_each-Spares f [] g = λ host. refl
  for_each-Spares f (x ∷ xs) g =
      bind-Spares (f x) _ (g x)
        λ y. bind-Spares (for_each f xs) _ (for_each-Spares f xs g) λ ys host. refl
