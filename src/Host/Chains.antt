-- ===== src/Host/Chains.antt =====
-- Loops of Host, round by round: each round goes on where the one before has ended.
use tiny_agent.Base.{◌≡◌, subst, List, [], ◌∷◌, ok}
use tiny_agent.Host.{Host, Exec, for_each, each}
use tiny_agent.Host.Rules.{bind-ok, then-ok, pure-ok}

-- Rounds with what each gives, from a host to the last.
abbrev pub AreGiven :
    {W A B : Type 0}
    → (A → B → Host W → Host W → Type 0)
    → List A
    → List B
    → Host W
    → Host W
    → Type 0
AreGiven R [] [] host after = host ≡ after
AreGiven R [] (y ∷ ys) host after = ⊥
AreGiven R (x ∷ xs) [] host after = ⊥
AreGiven {W} R (x ∷ xs) (y ∷ ys) host after =
    (between : Host W) × R x y host between × AreGiven R xs ys between after

-- Rounds that give nothing.
abbrev pub AreSteps :
    {W A : Type 0} → (A → Host W → Host W → Type 0) → List A → Host W → Host W → Type 0
AreSteps R [] host after = host ≡ after
AreSteps {W} R (x ∷ xs) host after =
    (between : Host W) × R x host between × AreSteps R xs between after

module _ {W A : Type 0} where
  pub for_each-AreGiven :
      {B : Type 0} (R : A → B → Host W → Host W → Type 0) (f : A → Exec W B)
      → ((x : A) (y : B) (host after : Host W) → f x host ≡ (ok y, after) → R x y host after)
      → (xs : List A) (ys : List B) (host after : Host W) → for_each f xs host ≡ (ok ys, after)
      → AreGiven R xs ys host after
  unfolding for_each
  for_each-AreGiven {B} R f g [] ys host after h =
      let (same, last) = pure-ok [] ys host after h in
      subst (λ zs. AreGiven R [] zs host after) same last
  for_each-AreGiven {B} R f g (x ∷ xs) ys host after h = bind-ok (f x) _ host h λ y between e h1.
      bind-ok (for_each f xs) _ between h1 λ rest last e2 h2.
        let (same, end) = pure-ok (y ∷ rest) ys last after h2 in
        subst (λ zs. AreGiven R (x ∷ xs) zs host after) same
          (
            between,
            g x y host between e,
            subst (AreGiven R xs rest between) end
                (for_each-AreGiven R f g xs rest between last e2),
          )

  pub each-AreSteps :
      (R : A → Host W → Host W → Type 0) (f : A → Exec W (Unit {0}))
      → ((x : A) (host after : Host W) → f x host ≡ (ok tt, after) → R x host after)
      → (xs : List A) (host after : Host W) → each f xs host ≡ (ok tt, after)
      → AreSteps R xs host after
  unfolding each
  each-AreSteps R f g [] host after h = (pure-ok tt tt host after h).1
  each-AreSteps R f g (x ∷ xs) host after h =
      then-ok (f x) (each f xs) host h
        λ between e h1. (between, g x host between e, each-AreSteps R f g xs between after h1)
