-- ===== src/Examples/Paths.antt =====
-- The theorems on the genetic path finder, with natural numbers for the floating-point ones.
use python_agent_with_idp.Prelude.{
  ℕ, ◌+◌, ◌-◌, ◌*◌, ◌/◌, refl, [], ◌∷◌, ltb, leb, ◌==◌, ==-refl, arith,
}
use python_agent_with_idp.Exec.{returned}
use python_agent_with_idp.PathFinding.{
  Host, Arithmetic, GeneticConfiguration, ThrottleCalculationInput,
}
use python_agent_with_idp.PathFinding.Population.{crossover, mutate}
use python_agent_with_idp.PathFinding.Search.{find_optimal_throttle_sequence}
use python_agent_with_idp.PathFinding.Draws.{Gives}
use python_agent_with_idp.PathFinding.Offspring.{
  IsSequence, crossover-IsSequence, mutate-IsSequence,
}
use python_agent_with_idp.PathFinding.Found.{
  IsUsable, IsFound, Divides, find_optimal_throttle_sequence-Gives,
}
use python_agent_with_idp.PathFinding.Ranking.{IsReflexive}
use python_agent_with_idp.PathFinding.Service.{UnitDto, genetic_find_path, throttle_steps}
use python_agent_with_idp.PathFinding.Answers.{IsAnswer, throttle_steps_answers}

abbrev numbers : Arithmetic ℕ
numbers = record {
  of_int = λ n. n;
  add = λ a b. a + b;
  sub = λ a b. a - b;
  mul = λ a b. a * b;
  div = λ a b. returned (a / b);
  abs = λ a. a;
  le = leb;
  lt = ltb;
  same = λ a b. a == b;
  random = λ d. d;
  square = λ a. returned (a * a);
  root = λ a. a;
}

abbrev small : GeneticConfiguration ℕ
small = record {
  max_sequence_length = 3;
  population_size = 4;
  num_generations = 2;
  mutation_rate = 1;
  num_best_parents = 2;
  num_worst_parents = 1;
  speed_threshold = 5;
  throttle_range = (0, 300);
  distance_weight = 1;
  speed_weight = 1;
  length_weight = 1;
  nonzero_weight = 1;
  timeout_ms = 1000;
}

usable : IsUsable small
usable = record {
  some_room = omega arith;
  some_range = omega arith;
  two_sequences = omega arith;
  two_parents = omega arith;
  enough = omega arith;
}

divides : (m : ℕ) → Divides numbers m
divides m throttle = (throttle / m, refl)

reflexive : IsReflexive numbers
reflexive x = ==-refl x

abbrev host : Host
host = record { draws = λ n. n; times = λ n. n }

abbrev player : UnitDto ℕ
player = record { coordinate = record { x = 0; y = 0 }; speed = 0; mass = 2; friction = 0 }

abbrev enemy : UnitDto ℕ
enemy = record { coordinate = record { x = 9; y = 0 }; speed = 0; mass = 2; friction = 0 }

abbrev input : ThrottleCalculationInput ℕ
input = record { v0 = 0; mass = 2; friction = 0; d_target = 9 }

one_step : IsSequence 3 (0, 300) (7 ∷ 0 ∷ [])
one_step = record {
  nonempty = omega arith;
  short = omega arith;
  ranged = ((omega arith, omega arith), ((omega arith, omega arith), tt));
}

throttle_steps_answers_example :
    IsAnswer numbers small enemy
      (throttle_steps
        (genetic_find_path numbers small)
        (record { player_units = player ∷ []; enemy_units = enemy ∷ [] })
        host).0
      (returned 0)
      (returned 0)
throttle_steps_answers_example =
    throttle_steps_answers numbers small player enemy [] [] host usable (omega arith) (divides 2)
      reflexive

find_optimal_throttle_sequence-Gives_example :
    Gives (find_optimal_throttle_sequence numbers input small) (IsFound numbers small usable)
find_optimal_throttle_sequence-Gives_example =
    find_optimal_throttle_sequence-Gives numbers small usable input (divides 2) reflexive
      (omega arith)

crossover-IsSequence_example : Gives (crossover (7 ∷ 0 ∷ []) (7 ∷ 0 ∷ []) 3) (IsSequence 3 (0, 300))
crossover-IsSequence_example =
    crossover-IsSequence 3 (0, 300) (7 ∷ 0 ∷ []) (7 ∷ 0 ∷ []) (omega arith) one_step one_step

mutate-IsSequence_example : Gives (mutate numbers (7 ∷ 0 ∷ []) (0, 300) 1) (IsSequence 3 (0, 300))
mutate-IsSequence_example =
    mutate-IsSequence numbers 3 (0, 300) 1 (7 ∷ 0 ∷ []) (omega arith) one_step
