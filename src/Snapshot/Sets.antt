-- ===== src/Snapshot/Sets.antt =====
-- The order of the sorted list of a set of names, for scripts/export-private-source.py and scripts/collect-source-rpms.py
use Prim.Native.Char.{code}
use Prim.Native.Nat.{compare, Ordering}
use text.Mathlib.TextEquality.{codes_equal}
use tiny_agent.Base.{
  ap₂, either_branch, ◌⊎◌, codes, ℕ, String, true, false, List, [], ◌∷◌, str_eq, ◌≡◌, refl, arith,
  All, eq_iff, Bool-cases, inl, inr, All-map,
}
use tiny_agent.Snapshot.Order.{codes_lt, insert_name, sorted_set}

codes_lt_irrefl : (cs : List ℕ) → codes_lt cs cs ≡ false
unfolding codes_lt
codes_lt_irrefl [] = refl
codes_lt_irrefl (c ∷ cs) = ground (arith, codes_lt_irrefl cs)

codes_lt_trans :
    (bs cs ds : List ℕ) → codes_lt bs cs ≡ true → codes_lt cs ds ≡ true → codes_lt bs ds ≡ true
unfolding codes_lt
codes_lt_trans bs [] ds h k = cc
codes_lt_trans bs (c ∷ cs) [] h k = cc
codes_lt_trans [] (c ∷ cs) (d ∷ ds) h k = refl
codes_lt_trans (b ∷ bs) (c ∷ cs) (d ∷ ds) h k = ground (arith, codes_lt_trans bs cs ds)

codes_lt_total : (cs ds : List ℕ) → codes_lt cs ds ≡ false → codes_lt ds cs ≡ false → cs ≡ ds
unfolding codes_lt
codes_lt_total [] [] h k = refl
codes_lt_total [] (d ∷ ds) h k = cc
codes_lt_total (c ∷ cs) [] h k = cc
codes_lt_total (c ∷ cs) (d ∷ ds) h k = ground (arith, codes_lt_total cs ds)

head-eq : {c d : ℕ} {cs ds : List ℕ} → c ∷ cs ≡ d ∷ ds → c ≡ d
head-eq h = cc

tail-eq : {c d : ℕ} {cs ds : List ℕ} → c ∷ cs ≡ d ∷ ds → cs ≡ ds
tail-eq h = cc

same_code : (m n : ℕ) → m ≡ n → compare m n ≡ Ordering.eq
same_code m n h = ground arith

codes_injective : (s t : String) → codes s ≡ codes t → s ≡ t
codes_injective String.[] String.[] h = refl
codes_injective String.[] (String.◌∷◌ d t) h = cc
codes_injective (String.◌∷◌ c s) String.[] h = cc
codes_injective (String.◌∷◌ c s) (String.◌∷◌ d t) h =
    ap₂ String.◌∷◌ (codes_equal c d (same_code (code c) (code d) (head-eq h)))
      (codes_injective s t (tail-eq h))

differ : (s t : String) → str_eq s t ≡ false → s ≡ t → ⊥
differ s t e h = ground (arith, eq_iff s t)

abbrev pub Below : String → String → Type 0
Below s t = codes_lt (codes s) (codes t) ≡ true

abbrev pub IsAscending : List String → Type 0
IsAscending [] = Unit
IsAscending (name ∷ names) = All (Below name) names × IsAscending names

All-insert_name :
    (P : String → Type 0) (name : String) (names : List String)
    → P name
    → All P names
    → All P (insert_name name names)
unfolding insert_name
All-insert_name P name [] p h = (p, tt)
All-insert_name P name (other ∷ rest) p (q, h) =
    either_branch (All P) (str_eq name other) (q, h)
      λ _.
        either_branch (All P) (codes_lt (codes name) (codes other)) (p, (q, h))
          λ _. (q, All-insert_name P name rest p h)

insert_name-IsAscending :
    (name : String) (names : List String) → IsAscending names → IsAscending (insert_name name names)
unfolding insert_name
insert_name-IsAscending name [] h = (tt, tt)
insert_name-IsAscending name (other ∷ rest) (above, h) = elim (Bool-cases (str_eq name other)) [
  | inl e ↦ rw e (above, h)
  | inr e ↦ elim (Bool-cases (codes_lt (codes name) (codes other))) [
    | inl l ↦
        rw (e, l)
          (
            (
              l,
              All-map _ _ (λ s k. codes_lt_trans (codes name) (codes other) (codes s) l k) rest
                  above,
            ),
            (above, h),
          )
    | inr l ↦
        rw (e, l)
          (
            All-insert_name (Below other) name rest
                (greater e l (Bool-cases (codes_lt (codes other) (codes name)))) above,
            insert_name-IsAscending name rest h,
          )
  ]
]
  where
    greater :
        str_eq name other ≡ false
        → codes_lt (codes name) (codes other) ≡ false
        → (Below other name) ⊎ (codes_lt (codes other) (codes name) ≡ false)
        → Below other name
    greater e l (inl k) = k
    greater e l (inr k) = absurd (
        differ name other e
          (codes_injective name other (codes_lt_total (codes name) (codes other) l k)))

-- The list that is exported is in order, each name once.
pub sorted_set-IsAscending : (names : List String) → IsAscending (sorted_set names)
unfolding sorted_set
sorted_set-IsAscending [] = tt
sorted_set-IsAscending (name ∷ names) =
    insert_name-IsAscending name (sorted_set names) (sorted_set-IsAscending names)

pub Below-irrefl : (s : String) → Below s s → ⊥
Below-irrefl s h = ground (arith, codes_lt_irrefl (codes s))
