-- ===== src/PathFinding/Found.antt =====
-- The genetic search, by the rules of `Draws`.
use python_agent_with_idp.Prelude.{
  ℕ, zero, suc, ◌+◌, ◌≤◌, ◌≡◌, refl, ◌⊎◌, inl, inr, some, List, [], ◌∷◌, ◌++◌, All, All-append,
  All-map, length, length-append, leb, arith,
}
use python_agent_with_idp.Exec.{returned}
use python_agent_with_idp.PathFinding.{
  Arithmetic, Throttles, GeneticConfiguration, ThrottleCalculationInput, FitnessScore,
  calculate_velocity, travel, calculate_total_distance, fitness,
}
use python_agent_with_idp.PathFinding.Population.{
  select_best_parents, select_random_parents, mutate,
}
use python_agent_with_idp.PathFinding.Search.{
  ThrottleSequenceGeneticResult, min_from, best_of, make_child, breed, next_generation, generations,
  find_optimal_throttle_sequence,
}
use python_agent_with_idp.PathFinding.Draws.{
  Gives, Gives-return, Gives-bind, Gives-if, lift-Gives, repeat-Gives, for_each-Gives, sample-Gives,
  monotonic_ns-Gives,
}
use python_agent_with_idp.PathFinding.Offspring.{
  IsSequence, generate_initial_population-IsSequence, crossover-IsSequence, mutate-IsSequence,
}
use python_agent_with_idp.PathFinding.Ranking.{
  IsReflexive, select_best_parents-All, min_from-occurs, at_index-Gives,
}

-- What the search needs of its configuration.
pub record IsUsable {F : Type 0} (config : GeneticConfiguration F) : Type 0 where
  pub some_room : 1 ≤ config.max_sequence_length
  pub some_range : config.throttle_range.0 ≤ config.throttle_range.1
  pub two_sequences : 2 ≤ config.population_size
  pub two_parents : 2 ≤ config.num_best_parents + config.num_worst_parents
  pub enough : config.num_worst_parents ≤ config.population_size

-- Throttles can be divided by the mass.
abbrev pub Divides : {F : Type 0} → Arithmetic F → F → Type 0
Divides {F} ops m = (throttle : ℕ) → (q : F) × (ops.div (ops.of_int throttle) m ≡ returned q)

module _ {F : Type 0} (ops : Arithmetic F) where
  calculate_velocity-Gives :
      (v0 : F) (throttle : ℕ) (m f : F)
      → Divides ops m
      → Gives (calculate_velocity ops v0 throttle m f) (λ v. Unit {0})
  unfolding calculate_velocity
  calculate_velocity-Gives v0 throttle m f divides =
      Gives-bind _ _ (lift-Gives _ (divides throttle)) (λ q _. Gives-return _ tt)

  travel-Gives :
      (total velocity : F) (throttles : Throttles) (m f : F)
      → Divides ops m
      → Gives (travel ops total velocity throttles m f) (λ p. Unit)
  unfolding travel
  travel-Gives total velocity [] m f divides = Gives-return _ tt
  travel-Gives total velocity (throttle ∷ throttles) m f divides =
      Gives-bind _ _ (calculate_velocity-Gives velocity throttle m f divides)
        (λ v _. travel-Gives (ops.add total v) v throttles m f divides)

  fitness-Gives :
      (input : ThrottleCalculationInput F) (config : GeneticConfiguration F) (throttles : Throttles)
      → Divides ops input.mass
      → Gives (fitness ops input config throttles) (λ score. Unit)
  unfolding fitness calculate_total_distance
  fitness-Gives input config throttles divides =
      Gives-bind _ _ (travel-Gives _ input.v0 throttles input.mass input.friction divides)
        (λ p _. Gives-return _ tt)

  module _ (config : GeneticConfiguration F) (usable : IsUsable config) where
    abbrev pub IsMember : Throttles → Type 0
    IsMember = IsSequence config.max_sequence_length config.throttle_range

    make_child-Gives :
        (all_parents pair : List Throttles)
        → length pair ≡ 2
        → All IsMember pair
        → Gives (make_child ops config all_parents pair) IsMember
    unfolding make_child
    make_child-Gives all_parents [] e h = absurd (omega (arith, e))
    make_child-Gives all_parents (p ∷ []) e h = absurd (omega (arith, e))
    make_child-Gives all_parents (p ∷ q ∷ rest) e h =
        crossover-IsSequence config.max_sequence_length config.throttle_range p q usable.some_room
          h.0 h.1.0

    breed-Gives :
        (all_parents : List Throttles)
        → 2 ≤ length all_parents
        → All IsMember all_parents
        → Gives (breed ops config all_parents) IsMember
    unfolding breed
    breed-Gives all_parents two h =
        Gives-bind _ _ (sample-Gives IsMember all_parents 2 h two)
          (λ pair hp. make_child-Gives all_parents pair hp.0 hp.1)

    -- A population of the size asked for, of well-formed sequences.
    abbrev pub IsPopulation : List Throttles → Type 0
    IsPopulation population = (length population ≡ config.population_size) × All IsMember population

    next_generation-Gives :
        (population : List Throttles) (scores : List (FitnessScore F))
        → IsPopulation population
        → length scores ≡ length population
        → Gives (next_generation ops config population scores) IsPopulation
    unfolding next_generation select_random_parents
    next_generation-Gives population scores h e =
        let best = select_best_parents ops population scores config.num_best_parents in
        let (best_are, few) =
          select_best_parents-All ops IsMember population scores config.num_best_parents h.1 e in
        Gives-bind _ _
          (sample-Gives IsMember population config.num_worst_parents h.1
            (omega (arith, h.0, usable.enough)))
          (λ worst hw.
            let two : 2 ≤ length (best ++ worst) = elim few [
              | inl a ↦ omega (arith, length-append best worst, a, hw.0, usable.two_parents)
              | inr b ↦ omega (arith, length-append best worst, b, h.0, usable.two_sequences)
            ] in
            Gives-bind _ _
              (repeat-Gives IsMember config.population_size _
                (breed-Gives (best ++ worst) two (All-append IsMember best worst best_are hw.1)))
              (λ children hc. record {
                run = λ s a.
                    let (ys, r, hy) =
                      (for_each-Gives IsMember IsMember
                          (λ child. mutate ops child config.throttle_range config.mutation_rate)
                          children
                          (λ child hm.
                            mutate-IsSequence ops config.max_sequence_length config.throttle_range
                              config.mutation_rate child usable.some_range hm)
                          hc.1).run
                        s a in
                    (ys, r, (omega (arith, hy.0, hc.0), hy.1));
              }))

    -- The result has a sequence, and it is well formed.
    abbrev pub IsFound : ThrottleSequenceGeneticResult F → Type 0
    IsFound result =
        (throttles : Throttles) × (result.sequence ≡ some throttles) × IsMember throttles

    best_of-Gives :
        (population : List Throttles) (scores : List (FitnessScore F))
        → IsReflexive ops
        → IsPopulation population
        → length scores ≡ length population
        → Gives (best_of ops population scores) IsFound
    unfolding best_of
    best_of-Gives population [] same h e = absurd (omega (arith, e, h.0, usable.two_sequences))
    best_of-Gives population (x ∷ xs) same h e =
        Gives-bind _ _
          (at_index-Gives ops IsMember (min_from ops x xs) population (x ∷ xs) h.1 e
            (min_from-occurs ops same x xs))
          (λ best hb. Gives-return _ (best, refl, hb))

    module _ (input : ThrottleCalculationInput F) (divides : Divides ops input.mass)
        (same : IsReflexive ops) where
      generations-Gives :
          (start left : ℕ) (population : List Throttles) (best : ThrottleSequenceGeneticResult F)
          → IsPopulation population
          → (IsFound best) ⊎ (1 ≤ left)
          → Gives (generations ops input config start left population best) IsFound
      unfolding generations
      generations-Gives start zero population best h (inl found) = Gives-return best found
      generations-Gives start zero population best h (inr more) = absurd (omega (arith, more))
      generations-Gives start (suc left) population best h progress =
          Gives-bind _ _
            (for_each-Gives (λ x. Unit) (λ score. Unit) (fitness ops input config) population
              (λ x _. fitness-Gives input config x divides)
              (All-map IsMember (λ x. Unit) population (λ x _. tt) h.1))
            (λ scores hs.
              Gives-bind _ _ (next_generation-Gives population scores h hs.0) (λ children hc.
                Gives-bind _ _ (best_of-Gives population scores same h hs.0) (λ best' found.
                  Gives-bind _ _ monotonic_ns-Gives (λ now _.
                    Gives-if (leb _ now) _ _ (λ _. Gives-return best' found)
                      (λ _. generations-Gives start left children best' hc (inl found))))))

      -- With a usable configuration of at least one generation, a mass that throttles can
      -- be divided by, and numbers that are identical to themselves, the genetic search
      -- returns, whatever is drawn, and its sequence is there: not empty, not longer than
      -- the maximum, and in the range of the throttles.
      pub find_optimal_throttle_sequence-Gives :
          1 ≤ config.num_generations
          → Gives (find_optimal_throttle_sequence ops input config) IsFound
      unfolding find_optimal_throttle_sequence
      find_optimal_throttle_sequence-Gives some_generation =
          Gives-bind _ _
            (generate_initial_population-IsSequence config.max_sequence_length config.throttle_range
              config.population_size usable.some_room usable.some_range)
            (λ population h. Gives-bind _ _ monotonic_ns-Gives (λ start _.
              generations-Gives start config.num_generations population _ h (inr some_generation)))
