-- ===== src/PathFinding/Search.antt =====
-- `find_optimal_throttle_sequence` of path_finders/genetic.py.
use python_agent_with_idp.Prelude.{
  ℕ, zero, suc, ◌+◌, ◌*◌, Bool, ◌&&◌, Option, none, some, List, [], ◌∷◌, ◌++◌, leb, ◌==◌,
  if◌then◌else◌,
}
use python_agent_with_idp.Error.{other}
use python_agent_with_idp.Exec.{Exec, return, raise, ◌>>=◌}
use python_agent_with_idp.PathFinding.{
  Host, Arithmetic, Throttles, GeneticConfiguration, ThrottleCalculationInput, FitnessScore,
  fitness,
}
use python_agent_with_idp.PathFinding.Random.{sample, monotonic_ns}
use python_agent_with_idp.PathFinding.Population.{
  repeat, for_each, generate_initial_population, select_best_parents, select_random_parents,
  crossover, mutate,
}

-- ThrottleSequenceGeneticResult: both fields are None before the first generation.
pub record ThrottleSequenceGeneticResult (F : Type 0) : Type 0 where
  pub sequence : Option Throttles
  pub fitness_score : Option (FitnessScore F)

module _ {F : Type 0} (ops : Arithmetic F) where
  -- Dataclass equality, field by field.
  unfoldable pub same_score : FitnessScore F → FitnessScore F → Bool
  same_score a b =
      ops.same a.score b.score
      && ops.same a.distance_diff b.distance_diff
      && ops.same a.speed_penalty b.speed_penalty
      && (a.length_penalty == b.length_penalty)

  -- min(scores, key=score): the first that none after it is less than
  unfoldable pub min_from : FitnessScore F → List (FitnessScore F) → FitnessScore F
  min_from best [] = best
  min_from best (x ∷ xs) = min_from (if ops.lt x.score best.score then x else best) xs

  -- population[fitness_scores.index(best)]
  unfoldable pub at_index :
      FitnessScore F → List Throttles → List (FitnessScore F) → Exec Host Throttles
  unfolding same_score
  at_index best [] scores = raise (other "list index out of range")
  at_index best (x ∷ xs) [] = raise (other "is not in list")
  at_index best (x ∷ xs) (y ∷ ys) =
      let rest = at_index best xs ys in if same_score y best then return x else rest

  unfoldable pub best_of :
      List Throttles → List (FitnessScore F) → Exec Host (ThrottleSequenceGeneticResult F)
  unfolding at_index min_from
  best_of population [] = raise (other "min() arg is an empty sequence")
  best_of population (x ∷ xs) = do
    best_throttle_sequence ← at_index (min_from x xs) population (x ∷ xs)
    return (record { sequence = some best_throttle_sequence; fitness_score = some (min_from x xs) })

  -- One round of the loop that fills the next generation.
  unfoldable pub make_child :
      GeneticConfiguration F → List Throttles → List Throttles → Exec Host Throttles
  make_child config all_parents [] = raise (other "not enough values to unpack")
  make_child config all_parents (parent1 ∷ []) = raise (other "not enough values to unpack")
  make_child config all_parents (parent1 ∷ parent2 ∷ rest) =
      crossover parent1 parent2 config.max_sequence_length

  unfoldable pub breed : GeneticConfiguration F → List Throttles → Exec Host Throttles
  unfolding make_child
  breed config all_parents = do pair ← sample all_parents 2; make_child config all_parents pair

  -- Steps 3 to 5 of a generation.
  unfoldable pub next_generation :
      GeneticConfiguration F → List Throttles → List (FitnessScore F) → Exec Host (List Throttles)
  next_generation config population fitness_scores = do
    let best_parents : List Throttles =
        select_best_parents ops population fitness_scores config.num_best_parents
    worst_parents ← select_random_parents ops population fitness_scores config.num_worst_parents
    children ← repeat config.population_size (breed config (best_parents ++ worst_parents))
    for_each (λ child. mutate ops child config.throttle_range config.mutation_rate) children

  -- The loop over the generations: how many are left, the population and the best result so far.
  unfoldable pub generations :
      ThrottleCalculationInput F
      → GeneticConfiguration F
      → ℕ
      → ℕ
      → List Throttles
      → ThrottleSequenceGeneticResult F
      → Exec Host (ThrottleSequenceGeneticResult F)
  generations input config start_time zero population best = return best
  generations input config start_time (suc left) population best = do
    fitness_scores ← for_each (fitness ops input config) population
    children ← next_generation config population fitness_scores
    best' ← best_of population fitness_scores
    actual_time ← monotonic_ns
    let rest = generations input config start_time left children best'
    if leb (start_time + config.timeout_ms * 1_000_000) actual_time then return best' else rest

  unfoldable pub find_optimal_throttle_sequence :
      ThrottleCalculationInput F
      → GeneticConfiguration F
      → Exec Host (ThrottleSequenceGeneticResult F)
  find_optimal_throttle_sequence input config = do
    population ←
        generate_initial_population config.population_size config.max_sequence_length
          config.throttle_range
    start_time ← monotonic_ns
    generations input config start_time config.num_generations population
        (record { sequence = none; fitness_score = none })
