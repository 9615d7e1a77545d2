-- ===== src/PathFinding/Population.antt =====
-- The operators of llm_agent/llm_agent/infrastructure/navigation/path_finders/genetic.py on
-- populations.
use python_agent_with_idp.Prelude.{
  ℕ, zero, suc, ◌-◌, ◌&&◌, List, [], ◌∷◌, ◌++◌, map, length, drop, ltb, leb, if◌then◌else◌,
}
use python_agent_with_idp.Exec.{Exec, return, ◌>>=◌}
use python_agent_with_idp.PathFinding.{Host, Arithmetic, Throttles, FitnessScore}
use python_agent_with_idp.PathFinding.Random.{randint, chance, sample}

-- [action() for _ in range(n)]
unfoldable pub repeat : {A : Type 0} → ℕ → Exec Host A → Exec Host (List A)
repeat zero m = return []
repeat (suc n) m = do x ← m; xs ← repeat n m; return (x ∷ xs)

-- [f(x) for x in xs]
unfoldable pub for_each : {A B : Type 0} → (A → Exec Host B) → List A → Exec Host (List B)
for_each f [] = return []
for_each f (x ∷ xs) = do y ← f x; ys ← for_each f xs; return (y ∷ ys)

-- xs[:n]
abbrev pub take : {A : Type 0} → ℕ → List A → List A
take zero xs = []
take (suc n) [] = []
take (suc n) (x ∷ xs) = x ∷ take n xs

unfoldable pub generate_sequence : ℕ → ℕ × ℕ → Exec Host Throttles
generate_sequence max_t throttle_range = do
  n ← randint 1 max_t
  repeat n (randint throttle_range.0 throttle_range.1)

unfoldable pub generate_initial_population : ℕ → ℕ → ℕ × ℕ → Exec Host (List Throttles)
generate_initial_population pop_size max_t throttle_range =
    repeat pop_size (generate_sequence max_t throttle_range)

-- zip(xs, ys)
abbrev pub zip : {A B : Type 0} → List A → List B → List (A × B)
zip [] ys = []
zip (x ∷ xs) [] = []
zip (x ∷ xs) (y ∷ ys) = (x, y) ∷ zip xs ys

module _ {F : Type 0} (ops : Arithmetic F) where
  -- `sorted` with the score as its key: stable, and by `<` alone.
  unfoldable pub insert :
      Throttles × FitnessScore F
      → List (Throttles × FitnessScore F)
      → List (Throttles × FitnessScore F)
  insert p [] = p ∷ []
  insert p (q ∷ qs) =
      let rest = insert p qs in if ops.lt q.1.score p.1.score then q ∷ rest else p ∷ q ∷ qs

  unfoldable pub sorted : List (Throttles × FitnessScore F) → List (Throttles × FitnessScore F)
  unfolding insert
  sorted [] = []
  sorted (p ∷ ps) = insert p (sorted ps)

  unfoldable pub select_best_parents : List Throttles → List (FitnessScore F) → ℕ → List Throttles
  unfolding sorted
  select_best_parents population fitnesses num_parents =
      map (λ p. p.0) (take num_parents (sorted (zip population fitnesses)))

  unfoldable pub select_random_parents :
      List Throttles → List (FitnessScore F) → ℕ → Exec Host (List Throttles)
  select_random_parents population fitnesses num_parents = sample population num_parents

unfoldable pub crossover : Throttles → Throttles → ℕ → Exec Host Throttles
crossover parent1 parent2 max_allowed_length = do
  crossover_point1 ← randint 1 (length parent1)
  crossover_point2 ← randint 1 (length parent2)
  let child : Throttles = take crossover_point1 parent1 ++ drop crossover_point2 parent2
  return (if leb max_allowed_length (length child) then take max_allowed_length child else child)

-- del xs[i]
abbrev pub delete : {A : Type 0} → ℕ → List A → List A
delete i [] = []
delete zero (x ∷ xs) = xs
delete (suc i) (x ∷ xs) = x ∷ delete i xs

module _ {F : Type 0} (ops : Arithmetic F) where
  -- The body of the loop of `mutate`, for one position.
  unfoldable pub mutate_throttle : ℕ × ℕ → F → ℕ → Exec Host ℕ
  mutate_throttle throttle_range mutation_rate throttle = do
    mutated ← chance ops mutation_rate
    if mutated then randint throttle_range.0 throttle_range.1 else return throttle

  unfoldable pub mutate : Throttles → ℕ × ℕ → F → Exec Host Throttles
  mutate throttle_sequence throttle_range mutation_rate = do
    changed ← for_each (mutate_throttle throttle_range mutation_rate) throttle_sequence
    shortened ← chance ops mutation_rate
    if shortened && ltb 1 (length changed)
        then (do delete_pos ← randint 0 (length changed - 1); return (delete delete_pos changed))
        else return changed
