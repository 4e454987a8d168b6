-- ===== src/Snapshot/Order.antt =====
-- `sorted(names)` of a set: the order of texts by their code points, each name once.
use tiny_agent.Base.{
  codes, ℕ, String, Bool, true, false, List, [], ◌∷◌, if◌then◌else◌, ltb, ◌==◌, str_eq,
}

unfoldable pub codes_lt : List ℕ → List ℕ → Bool
codes_lt cs [] = false
codes_lt [] (d ∷ ds) = true
codes_lt (c ∷ cs) (d ∷ ds) = let rest = codes_lt cs ds in if c == d then rest else ltb c d

unfoldable pub insert_name : String → List String → List String
unfolding codes_lt
insert_name name [] = name ∷ []
insert_name name (other ∷ rest) =
    let more = insert_name name rest in
    if str_eq name other
    then other ∷ rest
    else if codes_lt (codes name) (codes other)
    then name ∷ (other ∷ rest)
    else other ∷ more

unfoldable pub sorted_set : List String → List String
unfolding insert_name
sorted_set [] = []
sorted_set (name ∷ names) = insert_name name (sorted_set names)
