-- ===== src/Base/Results.antt =====
-- Python's exceptions as values. A function that may raise returns a `Result`.
use Prim.Native.String.{String}
use mathlib.Core.Path.{◌≡◌, refl}
use mathlib.Core.Option.{some}
use mathlib.Core.Logic.{◌⊎◌, inl, inr}
use mathlib.Core.Bool.{Bool, true, false}
use native.Mathlib.Omega.{arith}
use mathlib.Core.List.{List, [], ◌∷◌}
use tiny_agent.Base.Lists.{All}

-- The classes of exceptions that the programs raise or catch, with their messages.
pub data Exception : Type 0 where
  assertion value_error runtime_error key_error type_error : String → Exception
  os_error file_exists file_not_found : String → Exception
  struct_error decode_error : String → Exception
  index_error attribute_error unicode_error : String → Exception
  url_error http_exception timeout_error incomplete_download : String → Exception
  bridge_response_error stop_iteration process_error name_error system_exit : String → Exception

-- What a call leaves behind: the value that it returned, or the exception that it raised.
pub data Result {ℓ} (V : Type ℓ) : Type ℓ where
  ok : V → Result V
  err : Exception → Result V

-- `if test: raise x`
abbrev pub raise_if : Bool → Exception → Result (Unit {0})
raise_if false x = ok tt
raise_if true x = err x

-- `assert test, message`, or `if not test: raise x`
abbrev pub guard : Bool → Exception → Result (Unit {0})
guard test x = elim test [ true ↦ ok tt | false ↦ err x ]

infixl 10 ◌>>=◌ ◌>>◌
abbrev pub ◌>>=◌ {ℓ κ} : {V : Type ℓ} {U : Type κ} → Result V → (V → Result U) → Result U
err x >>= next = err x
ok value >>= next = next value

abbrev pub ◌>>◌ {κ} : {U : Type κ} → Result (Unit {0}) → Result U → Result U
err x >> next = err x
ok done >> next = next

pub guard-eq-ok : (b : Bool) (e : Exception) {u : Unit {0}} → guard b e ≡ ok u → b ≡ true
guard-eq-ok b e h = ground arith

-- Inversion of a successful bind.
pub >>=-eq-ok {ℓ κ} :
    {V : Type ℓ} {U : Type κ} (call : Result V) (next : V → Result U) {end : U}
    → (call >>= next) ≡ ok end
    → (value : V) × (call ≡ ok value) × (next value ≡ ok end)
>>=-eq-ok (err x) next h = cc
>>=-eq-ok (ok value) next h = (value, refl, h)

-- Inversion of a test that a successful block has passed.
pub guard->>-eq-ok {ℓ} :
    {B : Type ℓ} (t : Bool) (e : Exception) (k : Result B) {b : B}
    → (guard t e >> k) ≡ ok b
    → (t ≡ true) × (k ≡ ok b)
guard->>-eq-ok true e k h = (refl, h)
guard->>-eq-ok false e k h = cc

pub raise_if->>-eq-ok {ℓ} :
    {B : Type ℓ} (t : Bool) (e : Exception) (k : Result B) {b : B}
    → (raise_if t e >> k) ≡ ok b
    → (t ≡ false) × (k ≡ ok b)
raise_if->>-eq-ok true e k h = cc
raise_if->>-eq-ok false e k h = (refl, h)

pub Result-cases {ℓ} :
    {A : Type ℓ} (r : Result A) → ((a : A) × (r ≡ ok a)) ⊎ ((e : Exception) × (r ≡ err e))
Result-cases (ok a) = inl (a, refl)
Result-cases (err e) = inr (e, refl)

-- The same, with the rest of a proof as an argument.
module _ {ℓ κ} {U : Type ℓ} {Goal : Type κ} where
  pub >>=-ok {ι} :
      {V : Type ι} (call : Result V) (next : V → Result U) {end : U}
      → (call >>= next) ≡ ok end
      → ((value : V) → call ≡ ok value → next value ≡ ok end → Goal)
      → Goal
  >>=-ok call next h go = let (value, e, h1) = >>=-eq-ok call next h in go value e h1

  pub >>-ok :
      (call : Result (Unit {0})) (k : Result U) {end : U}
      → (call >> k) ≡ ok end
      → (call ≡ ok tt → k ≡ ok end → Goal)
      → Goal
  >>-ok (ok done) k h go = go refl h
  >>-ok (err x) k h go = cc

  pub guard-ok :
      (t : Bool) (x : Exception) (k : Result U) {end : U}
      → (guard t x >> k) ≡ ok end
      → (t ≡ true → k ≡ ok end → Goal)
      → Goal
  guard-ok t x k h go = let (e, h1) = guard->>-eq-ok t x k h in go e h1

-- A loop that may raise, and the list of what its rounds give.
module _ {ℓ κ} {V : Type ℓ} {U : Type κ} (f : V → Result U) where
  unfoldable pub traverse : List V → Result (List U)
  traverse [] = ok []
  traverse (x ∷ xs) = do y ← f x; ys ← traverse xs; ok (y ∷ ys)

-- A loop of checks.
module _ {ℓ} {V : Type ℓ} (f : V → Result (Unit {0})) where
  unfoldable pub check_all : List V → Result (Unit {0})
  check_all [] = ok tt
  check_all (x ∷ xs) = f x >> check_all xs

  pub check_all-All : (xs : List V) → check_all xs ≡ ok tt → All (λ x. f x ≡ ok tt) xs
  unfolding check_all
  check_all-All [] h = tt
  check_all-All (x ∷ xs) h = >>-ok (f x) (check_all xs) h λ e h1. (e, check_all-All xs h1)

  pub All-check_all : (xs : List V) → All (λ x. f x ≡ ok tt) xs → check_all xs ≡ ok tt
  unfolding check_all
  All-check_all [] h = refl
  All-check_all (x ∷ xs) (e, h) = rw e (All-check_all xs h)

pub ok_injective {ℓ} : {V : Type ℓ} (a b : V) → ok a ≡ ok b → a ≡ b
ok_injective a b h = cc

pub some_injective {ℓ} : {V : Type ℓ} (a b : V) → some a ≡ some b → a ≡ b
some_injective a b h = cc
