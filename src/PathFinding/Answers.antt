-- ===== src/PathFinding/Answers.antt =====
-- What the throttle route answers with the genetic path finder.
use python_agent_with_idp.Prelude.{
  ℕ, ◌≤◌, ◌≡◌, refl, Option, some, List, [], ◌∷◌, map, All, length, arith,
}
use python_agent_with_idp.Exec.{Outcome, returned, raised, return, ◌>>=◌}
use python_agent_with_idp.Exec.Results
use python_agent_with_idp.Error.{Exception, str_exception}
use python_agent_with_idp.Api.{Answer, answered, http_exception}
use python_agent_with_idp.PathFinding.{Host, Arithmetic, Throttles, GeneticConfiguration}
use python_agent_with_idp.PathFinding.Draws.{Gives, Gives-return, Gives-bind, lift-Gives}
use python_agent_with_idp.PathFinding.Offspring.{InRange, IsSequence}
use python_agent_with_idp.PathFinding.Found.{
  IsUsable, Divides, find_optimal_throttle_sequence-Gives,
}
use python_agent_with_idp.PathFinding.Ranking.{IsReflexive, length-map}
use python_agent_with_idp.PathFinding.Grid.{calc_euclidean_distance}
use python_agent_with_idp.PathFinding.Service.{
  GameState, UnitGoal, UnitDto, GameStateDto, UnitGoalDto, goals_of, genetic_find_path,
  calculate_throttle_steps, unit_from_dto, game_state_from_dto, unit_goal_to_dto, or_400,
  throttle_steps,
}

module _ {F : Type 0} (ops : Arithmetic F) (config : GeneticConfiguration F) where
  -- A throttle of the path, on the way to the target.
  pub record IsGoal (target : UnitDto F) (goal : UnitGoalDto F) : Type 0 where
    pub to_target : goal.coordinate ≡ (unit_from_dto target).coordinate
    pub ranged : InRange config.throttle_range goal.throttle

  -- A path: at least one goal, not more than the maximum, each one to the target.
  pub record IsPath (target : UnitDto F) (goals : List (UnitGoalDto F)) : Type 0 where
    pub nonempty : 1 ≤ length goals
    pub short : length goals ≤ config.max_sequence_length
    pub each : All (IsGoal target) goals

  IsPath-goals :
      (target : UnitDto F) (throttles : Throttles)
      → All (InRange config.throttle_range) throttles
      → All (IsGoal target) (
          map unit_goal_to_dto (
            map
              (λ throttle. record {
                coordinate = (unit_from_dto target).coordinate;
                throttle = throttle;
              })
              throttles))
  unfolding unit_goal_to_dto
  IsPath-goals target [] h = tt
  IsPath-goals target (throttle ∷ throttles) h =
      (record { to_target = refl; ranged = h.0 }, IsPath-goals target throttles h.1)

  found-IsPath :
      (target : UnitDto F) (found : Option Throttles) (throttles : Throttles)
      → found ≡ some throttles
      → IsSequence config.max_sequence_length config.throttle_range throttles
      → Gives
          (goals_of (unit_from_dto target).coordinate found)
          (λ goals. IsPath target (map unit_goal_to_dto goals))
  unfolding goals_of
  found-IsPath target found throttles e h =
      let at_target : ℕ → UnitGoal F = λ throttle. record {
        coordinate = (unit_from_dto target).coordinate;
        throttle = throttle;
      } in
      let goals = map at_target throttles in
      let n = length-map at_target throttles in
      let m = length-map unit_goal_to_dto goals in
      rw e (
        Gives-return goals (record {
          nonempty = omega (arith, n, m, h.nonempty);
          short = omega (arith, n, m, h.short);
          each = IsPath-goals target throttles h.ranged;
        }))

  -- The distance that the path finder computes first.
  abbrev distance_of : UnitDto F → UnitDto F → Outcome F
  distance_of player enemy =
      calc_euclidean_distance ops (unit_from_dto player).coordinate (unit_from_dto enemy).coordinate

  module _ (usable : IsUsable config) (some_generation : 1 ≤ config.num_generations)
      (same : IsReflexive ops) where
    genetic_find_path-Gives :
        (game_state : GameState F) (player enemy : UnitDto F)
        → Divides ops player.mass
        → (distance : F) × (distance_of player enemy ≡ returned distance)
        → Gives
            (genetic_find_path ops config game_state (unit_from_dto player) (unit_from_dto enemy))
            (λ goals. IsPath enemy (map unit_goal_to_dto goals))
    unfolding genetic_find_path unit_from_dto
    genetic_find_path-Gives game_state player enemy divides measured =
        Gives-bind _ _ (lift-Gives _ measured) (λ distance _.
          Gives-bind _ _
            (find_optimal_throttle_sequence-Gives ops config usable _ divides same some_generation)
            (λ result found. found-IsPath enemy result.sequence found.0 found.1 found.2))

    steps-Gives :
        (game_state : GameState F) (player enemy : UnitDto F)
        → Divides ops player.mass
        → (distance : F) × (distance_of player enemy ≡ returned distance)
        → Gives
            (genetic_find_path ops config game_state (unit_from_dto player) (unit_from_dto enemy)
              >>= λ goals. return (map unit_goal_to_dto goals))
            (IsPath enemy)
    steps-Gives game_state player enemy divides measured =
        Gives-bind _ _ (genetic_find_path-Gives game_state player enemy divides measured)
          (λ goals path. Gives-return _ path)

  -- The answer to the players and the enemies that are given, the first of each first.
  abbrev answer_to :
      UnitDto F
      → UnitDto F
      → List (UnitDto F)
      → List (UnitDto F)
      → Host
      → Answer (List (UnitGoalDto F))
  answer_to player enemy players enemies s =
      (throttle_steps (genetic_find_path ops config)
        (record { player_units = player ∷ players; enemy_units = enemy ∷ enemies }) s).0

  not_measured :
      (player enemy : UnitDto F) (players enemies : List (UnitDto F)) (s : Host) (exc : Exception)
      → distance_of player enemy ≡ raised exc
      → answer_to player enemy players enemies s ≡ http_exception 400 (str_exception exc)
  unfolding throttle_steps calculate_throttle_steps genetic_find_path game_state_from_dto or_400
      ◌>>=◌
  not_measured player enemy players enemies s exc e = rw e refl

  measured-IsPath :
      (player enemy : UnitDto F) (players enemies : List (UnitDto F)) (s : Host)
      → IsUsable config
      → 1 ≤ config.num_generations
      → Divides ops player.mass
      → IsReflexive ops
      → (distance : F) × (distance_of player enemy ≡ returned distance)
      → (goals : List (UnitGoalDto F)) × (answer_to player enemy players enemies s ≡ answered goals)
        × IsPath enemy goals
  unfolding throttle_steps calculate_throttle_steps genetic_find_path game_state_from_dto or_400
  measured-IsPath player enemy players enemies s usable some_generation divides same measured =
      let state : GameStateDto F = record {
        player_units = player ∷ players;
        enemy_units = enemy ∷ enemies;
      } in
      let (goals, e, path) =
        (steps-Gives usable some_generation same (game_state_from_dto state) player enemy divides
            measured).run
          s tt in
      (goals, rw e refl, path)

  -- What the answer is, by the squares of the two differences.
  abbrev pub IsAnswer : UnitDto F → Answer (List (UnitGoalDto F)) → Outcome F → Outcome F → Type 0
  IsAnswer enemy answer (raised exc) dy2 = answer ≡ http_exception 400 (str_exception exc)
  IsAnswer enemy answer (returned dx2) (raised exc) =
      answer ≡ http_exception 400 (str_exception exc)
  IsAnswer enemy answer (returned dx2) (returned dy2) =
      (goals : List (UnitGoalDto F)) × (answer ≡ answered goals) × IsPath enemy goals

  answer_to-IsAnswer :
      (player enemy : UnitDto F) (players enemies : List (UnitDto F)) (s : Host)
      → IsUsable config
      → 1 ≤ config.num_generations
      → Divides ops player.mass
      → IsReflexive ops
      → (dx2 dy2 : Outcome F) → ops.square (ops.sub player.coordinate.x enemy.coordinate.x) ≡ dx2
      → ops.square (ops.sub player.coordinate.y enemy.coordinate.y) ≡ dy2
      → IsAnswer enemy (answer_to player enemy players enemies s) dx2 dy2
  unfolding calc_euclidean_distance unit_from_dto Results.◌>>=◌
  answer_to-IsAnswer player enemy players enemies s u g d r (raised exc) dy2 x y =
      not_measured player enemy players enemies s exc (rw x refl)
  answer_to-IsAnswer player enemy players enemies s u g d r (returned dx2) (raised exc) x y =
      not_measured player enemy players enemies s exc (rw (x, y) refl)
  answer_to-IsAnswer player enemy players enemies s u g d r (returned dx2) (returned dy2) x y =
      measured-IsPath player enemy players enemies s u g d r
        (ops.root (ops.add dx2 dy2), rw (x, y) refl)

  -- From a usable configuration with at least one generation, a mass that throttles can be
  -- divided by, and numbers that are identical to themselves, the throttle route with the
  -- genetic path finder answers, whatever is drawn and however long it takes, a path to the
  -- first enemy unit where the squares of the two differences of coordinates are returned: at
  -- least one goal, not more than the maximum, each throttle in range. Where one of the squares
  -- is raised, as OverflowError is for large coordinates, it answers 400 with the text of the
  -- first exception.
  pub throttle_steps_answers :
      (player enemy : UnitDto F) (players enemies : List (UnitDto F)) (s : Host)
      → IsUsable config
      → 1 ≤ config.num_generations
      → Divides ops player.mass
      → IsReflexive ops
      → IsAnswer enemy
          (throttle_steps
            (genetic_find_path ops config)
            (record { player_units = player ∷ players; enemy_units = enemy ∷ enemies })
            s).0
          (ops.square (ops.sub player.coordinate.x enemy.coordinate.x))
          (ops.square (ops.sub player.coordinate.y enemy.coordinate.y))
  throttle_steps_answers player enemy players enemies s usable some_generation divides same =
      answer_to-IsAnswer player enemy players enemies s usable some_generation divides same _ _ refl
        refl
