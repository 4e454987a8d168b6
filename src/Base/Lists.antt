-- ===== src/Base/Lists.antt =====
-- Lists measured and cut by native numbers, under the library's names, and Python's slices.
use Prim.Native.Nat.{ℕ, zero, suc, ◌+◌, ◌-◌, ◌≤◌, ◌<◌, min}
use mathlib.Core.Path.{◌≡◌, refl, ap, sym, ◌∙◌}
use mathlib.Core.List.{List, [], ◌∷◌, ◌++◌}
use native.Mathlib.Omega.{arith}
use tiny_agent.Base.Tests.{Bytes}

module _ {ℓ} {A : Type ℓ} where
  abbrev pub length : List A → ℕ
  length [] = 0
  length (x ∷ xs) = suc (length xs)

  abbrev pub take : ℕ → List A → List A
  take zero xs = []
  take (suc n) [] = []
  take (suc n) (x ∷ xs) = x ∷ take n xs

  abbrev pub drop : ℕ → List A → List A
  drop zero xs = xs
  drop (suc n) [] = []
  drop (suc n) (x ∷ xs) = drop n xs

  -- `xs[start:stop]` for indices that are not negative
  unfoldable pub slice : List A → ℕ → ℕ → List A
  slice xs start stop = take (stop - start) (drop start xs)

  pub length-append : (xs ys : List A) → length (xs ++ ys) ≡ length xs + length ys
  length-append [] ys = omega arith
  length-append (x ∷ xs) ys = omega (arith, length-append xs ys)

  pub take-append-drop : (n : ℕ) (xs : List A) → take n xs ++ drop n xs ≡ xs
  take-append-drop zero xs = refl
  take-append-drop (suc n) [] = refl
  take-append-drop (suc n) (x ∷ xs) = rw (take-append-drop n xs)

  pub length-take : (n : ℕ) (xs : List A) → length (take n xs) ≡ min n (length xs)
  length-take zero xs = omega arith
  length-take (suc n) [] = omega arith
  length-take (suc n) (x ∷ xs) = omega (arith, length-take n xs)

  pub length-drop : (n : ℕ) (xs : List A) → length (drop n xs) ≡ length xs - n
  length-drop zero xs = omega arith
  length-drop (suc n) [] = omega arith
  length-drop (suc n) (x ∷ xs) = omega (arith, length-drop n xs)

  pub length-slice :
      (xs : List A) (start stop : ℕ)
      → length (slice xs start stop) ≡ min (stop - start) (length xs - start)
  unfolding slice
  length-slice xs start stop =
      omega (arith, length-take (stop - start) (drop start xs), length-drop start xs)

  drop-drop : (m n : ℕ) (xs : List A) → drop n (drop m xs) ≡ drop (m + n) xs
  drop-drop zero n xs = ap (λ k. drop k xs) (omega arith)
  drop-drop (suc m) n (x ∷ xs) =
      let e : suc m + n ≡ suc (m + n) = omega arith in rw e (drop-drop m n xs)
  drop-drop (suc m) zero [] = let e : suc m + 0 ≡ suc m = omega arith in rw e refl
  drop-drop (suc m) (suc n) [] = let e : suc m + suc n ≡ suc (m + suc n) = omega arith in rw e refl

  -- The text from `start` on is the slice up to `stop` and the text from there.
  pub slice-append-drop :
      (xs : List A) (start stop : ℕ)
      → start ≤ stop
      → slice xs start stop ++ drop stop xs ≡ drop start xs
  unfolding slice
  slice-append-drop xs start stop h =
      let e : start + (stop - start) ≡ stop = omega arith in
      let d : drop (stop - start) (drop start xs) ≡ drop stop xs =
        rw drop-drop (ap (λ k. drop k xs) e) in
      rw (← d) (take-append-drop (stop - start) (drop start xs))

  pub slice_empty : (xs : List A) (start stop : ℕ) → stop ≤ start → slice xs start stop ≡ []
  unfolding slice
  slice_empty xs start stop h = let e : stop - start ≡ 0 = omega arith in rw e refl

  pub append-nil' : (xs : List A) → xs ++ [] ≡ xs
  append-nil' [] = refl
  append-nil' (x ∷ xs) = ap (λ t. x ∷ t) (append-nil' xs)

  pub append_assoc' : (xs ys zs : List A) → (xs ++ ys) ++ zs ≡ xs ++ (ys ++ zs)
  append_assoc' [] ys zs = refl
  append_assoc' (x ∷ xs) ys zs = ap (λ t. x ∷ t) (append_assoc' xs ys zs)

  drop-append : (xs ys : List A) → drop (length xs) (xs ++ ys) ≡ ys
  drop-append [] ys = refl
  drop-append (x ∷ xs) ys = drop-append xs ys

  take-append : (xs ys : List A) → take (length xs) (xs ++ ys) ≡ xs
  take-append [] ys = refl
  take-append (x ∷ xs) ys = ap (λ t. x ∷ t) (take-append xs ys)

  -- A part of a list is cut out by where it begins and how long it is.
  pub slice-append_middle :
      (xs ys zs : List A) → slice (xs ++ (ys ++ zs)) (length xs) (length xs + length ys) ≡ ys
  unfolding slice
  slice-append_middle xs ys zs =
      let e : length xs + length ys - length xs ≡ length ys = omega arith in
      rw e (rw drop-append (take-append ys zs))

  abbrev pub replicate : ℕ → A → List A
  replicate zero a = []
  replicate (suc n) a = a ∷ replicate n a

  -- A write at an offset of a file: a hole before it is filled, and what it covers is replaced.
  unfoldable pub write_at : A → List A → ℕ → List A → List A
  write_at fill file offset bytes =
      take offset (file ++ replicate (offset - length file) fill)
      ++ (bytes ++ drop (offset + length bytes) file)

  drop_all : (n : ℕ) (xs : List A) → length xs ≤ n → drop n xs ≡ []
  drop_all zero [] h = refl
  drop_all zero (x ∷ xs) h = absurd (omega arith)
  drop_all (suc n) [] h = refl
  drop_all (suc n) (x ∷ xs) h = drop_all n xs (omega arith)

  pub write_at_end :
      (fill : A) (file bytes : List A) → write_at fill file (length file) bytes ≡ file ++ bytes
  unfolding write_at
  write_at_end fill file bytes =
      let e : length file - length file ≡ 0 = omega arith in
      rw e (
        rw append-nil' (
          rw (drop_all (length file + length bytes) file (omega arith)) (
            rw (append-nil' bytes) (
              ap (λ t. t ++ bytes)
                (ap (take (length file)) (sym (append-nil' file)) ∙ take-append file [])))))

  abbrev pub All {κ} : (A → Type κ) → List A → Type κ
  All P [] = Unit
  All P (x ∷ xs) = P x × All P xs

  pub All-append {κ} : (P : A → Type κ) (xs ys : List A) → All P xs → All P ys → All P (xs ++ ys)
  All-append P [] ys h k = k
  All-append P (x ∷ xs) ys (p, h) k = (p, All-append P xs ys h k)

  pub All-Unit : (xs : List A) → All (λ _. Unit {0}) xs
  All-Unit [] = tt
  All-Unit (x ∷ xs) = (tt, All-Unit xs)

  pub All-map {κ ι} :
      (P : A → Type κ) (Q : A → Type ι) (f : (x : A) → P x → Q x) (xs : List A)
      → All P xs
      → All Q xs
  All-map P Q f [] h = tt
  All-map P Q f (x ∷ xs) (p, h) = (f x p, All-map P Q f xs h)

  pub All-replicate {κ} : (P : A → Type κ) (n : ℕ) (a : A) → P a → All P (replicate n a)
  All-replicate P zero a p = tt
  All-replicate P (suc n) a p = (p, All-replicate P n a p)

  pub All-take {κ} : (P : A → Type κ) (n : ℕ) (xs : List A) → All P xs → All P (take n xs)
  All-take P zero xs h = tt
  All-take P (suc n) [] h = tt
  All-take P (suc n) (x ∷ xs) (p, h) = (p, All-take P n xs h)

  pub All-drop {κ} : (P : A → Type κ) (n : ℕ) (xs : List A) → All P xs → All P (drop n xs)
  All-drop P zero xs h = h
  All-drop P (suc n) [] h = tt
  All-drop P (suc n) (x ∷ xs) (p, h) = All-drop P n xs h

  pub All-slice {κ} :
      (P : A → Type κ) (xs : List A) (start stop : ℕ) → All P xs → All P (slice xs start stop)
  unfolding slice
  All-slice P xs start stop h = All-take P (stop - start) (drop start xs) (All-drop P start xs h)

-- Every item of a byte string is a byte.
abbrev pub IsBytes : Bytes → Type 0
IsBytes s = All (λ b. b < 256) s
