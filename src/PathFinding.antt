-- ===== src/PathFinding.antt =====
-- llm_agent/llm_agent/domain/genetic_path, and the fitness of
-- llm_agent/llm_agent/infrastructure/navigation/path_finders/genetic.py. Floating-point numbers
-- are a parameter: the operations of `Arithmetic`, of which nothing is assumed here. Throttles
-- are natural numbers, so that a range that begins below zero is left out.
pub mod Random
pub mod Population
pub mod Search
pub mod Draws
pub mod Offspring
pub mod Ranking
pub mod Found
pub mod Grid
pub mod Service
pub mod Answers
pub mod Trajectory
use python_agent_with_idp.Prelude.{
  suc, ℕ, ◌-◌, Bool, true, false, ◌&&◌, List, [], ◌∷◌, length, ◌==◌, if◌then◌else◌,
}
use python_agent_with_idp.Error.{Exception}
use python_agent_with_idp.Exec.{Outcome, Exec, return, lift, ◌>>=◌}

-- What the host gives: the coming draws of the random number generator, and the coming readings of
-- time.monotonic_ns().
pub record Host : Type 0 where
  pub draws : ℕ → ℕ
  pub times : ℕ → ℕ

-- Python's `float`. A division may raise ZeroDivisionError, and a square OverflowError. `same` is
-- "identical or equal", by which list.index compares, `random d` is what random.random() makes of
-- the draw `d`, and `square` and `root` are `** 2` and `** 0.5`, the latter of a sum of squares.
pub record Arithmetic (F : Type 0) : Type 0 where
  pub of_int : ℕ → F
  pub add : F → F → F
  pub sub : F → F → F
  pub mul : F → F → F
  pub div : F → F → Outcome F
  pub abs : F → F
  pub le : F → F → Bool
  pub lt : F → F → Bool
  pub same : F → F → Bool
  pub random : ℕ → F
  pub square : F → Outcome F
  pub root : F → F

abbrev pub Throttles : Type 0
Throttles = List ℕ

pub record GeneticConfiguration (F : Type 0) : Type 0 where
  pub max_sequence_length : ℕ
  pub population_size : ℕ
  pub num_generations : ℕ
  pub mutation_rate : F
  pub num_best_parents : ℕ
  pub num_worst_parents : ℕ
  pub speed_threshold : ℕ
  pub throttle_range : ℕ × ℕ
  pub distance_weight : F
  pub speed_weight : F
  pub length_weight : F
  pub nonzero_weight : F
  pub timeout_ms : ℕ

pub record ThrottleCalculationInput (F : Type 0) : Type 0 where
  pub v0 : F
  pub mass : F
  pub friction : F
  pub d_target : F

pub record FitnessScore (F : Type 0) : Type 0 where
  pub score : F
  pub distance_diff : F
  pub speed_penalty : F
  pub length_penalty : ℕ

-- throttles.count(0)
unfoldable pub count_zero : Throttles → ℕ
count_zero [] = 0
count_zero (throttle ∷ throttles) =
    let rest = count_zero throttles in if throttle == 0 then suc rest else rest

module _ {F : Type 0} (ops : Arithmetic F) where
  unfoldable pub calculate_velocity : F → ℕ → F → F → Exec Host F
  calculate_velocity v0 throttle m f = do
    quotient ← lift (ops.div (ops.of_int throttle) m)
    return (ops.mul (ops.add v0 quotient) (ops.sub (ops.of_int 1) f))

  -- The loop of `calculate_total_distance`, from the distance and the velocity so far.
  unfoldable pub travel : F → F → Throttles → F → F → Exec Host (F × F)
  travel total_distance velocity [] m f = return (total_distance, velocity)
  travel total_distance velocity (throttle ∷ throttles) m f = do
    velocity' ← calculate_velocity velocity throttle m f
    travel (ops.add total_distance velocity') velocity' throttles m f

  unfoldable pub calculate_total_distance : F → Throttles → F → F → Exec Host (F × F)
  calculate_total_distance v0 throttles m f = travel (ops.of_int 0) v0 throttles m f

  -- 0 within the limit, else the distance to it
  unfoldable pub speed_penalty_of : ℕ → F → F
  speed_penalty_of v_threshold final_speed =
      let limit = ops.of_int v_threshold in
      if ops.le (ops.of_int 0) final_speed && ops.le final_speed limit
      then ops.of_int 0
      else ops.abs (ops.sub final_speed limit)

  unfoldable pub fitness :
      ThrottleCalculationInput F → GeneticConfiguration F → Throttles → Exec Host (FitnessScore F)
  unfolding count_zero speed_penalty_of
  fitness input config throttles = do
    reached ← calculate_total_distance input.v0 throttles input.mass input.friction
    let distance_diff : F = ops.abs (ops.sub input.d_target reached.0)
    let speed_penalty : F = speed_penalty_of config.speed_threshold reached.1
    let length_penalty : ℕ = length throttles
    let nonzero_count : ℕ = length throttles - count_zero throttles
    return (record {
      score =
          ops.add
            (ops.add
              (ops.add (ops.mul config.distance_weight distance_diff)
                (ops.mul config.speed_weight speed_penalty))
              (ops.mul config.length_weight (ops.of_int length_penalty)))
            (ops.mul (ops.of_int nonzero_count) config.nonzero_weight);
      distance_diff = distance_diff;
      speed_penalty = speed_penalty;
      length_penalty = length_penalty;
    })
