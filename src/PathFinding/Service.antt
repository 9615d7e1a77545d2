-- ===== src/PathFinding/Service.antt =====
-- The throttle route: llm_agent/llm_agent/domain/grid and game, the two path finders of
-- llm_agent/llm_agent/infrastructure/navigation/path_finders,
-- llm_agent/llm_agent/services/throttle_steps_service.py, and the route and mappers of
-- llm_agent/llm_agent/api/http/v1. The source's `Unit` is `GameUnit` here.
use python_agent_with_idp.Prelude.{ℕ, Option, none, some, List, [], ◌∷◌, map}
use python_agent_with_idp.Error.{other, str_exception}
use python_agent_with_idp.Exec.{Outcome, returned, raised, Exec, return, raise, lift, ◌>>=◌}
use python_agent_with_idp.Api.{Answer, answered, http_exception}
use python_agent_with_idp.PathFinding.{
  Host, Arithmetic, Throttles, GeneticConfiguration, ThrottleCalculationInput,
}
use python_agent_with_idp.PathFinding.Grid.{Coordinate, calc_euclidean_distance}
use python_agent_with_idp.PathFinding.Search.{find_optimal_throttle_sequence}

module _ (F : Type 0) where
  pub record GameUnit : Type 0 where
    pub coordinate : Coordinate F
    pub speed : F
    pub mass : F
    pub friction : F

  pub record GameState : Type 0 where
    pub player_units : List GameUnit
    pub enemy_units : List GameUnit

  pub record UnitGoal : Type 0 where
    pub coordinate : Coordinate F
    pub throttle : ℕ

  pub record CoordinateDto : Type 0 where
    pub x : F
    pub y : F

  pub record UnitDto : Type 0 where
    pub coordinate : CoordinateDto
    pub speed : F
    pub mass : F
    pub friction : F

  pub record GameStateDto : Type 0 where
    pub player_units : List UnitDto
    pub enemy_units : List UnitDto

  pub record UnitGoalDto : Type 0 where
    pub coordinate : Coordinate F
    pub throttle : ℕ

  -- PathFinderStrategy.find_path
  abbrev pub PathFinderStrategy : Type 0
  PathFinderStrategy = GameState → GameUnit → GameUnit → Exec Host (List UnitGoal)

-- except Exception as e: raise HTTPException(400, str(e))
unfoldable pub or_400 : {A : Type 0} → Outcome A → Answer A
or_400 (returned a) = answered a
or_400 (raised e) = http_exception 400 (str_exception e)

module _ {F : Type 0} where
  -- [UnitGoal(coordinate, throttle) for throttle in sequence], where iterating over None raises
  unfoldable pub goals_of : Coordinate F → Option Throttles → Exec Host (List (UnitGoal F))
  goals_of coordinate none = raise (other "'NoneType' object is not iterable")
  goals_of coordinate (some sequence) =
      return (map (λ throttle. record { coordinate = coordinate; throttle = throttle }) sequence)

  -- GeneticPathFinderStrategy
  module _ (ops : Arithmetic F) where
    unfoldable pub genetic_find_path : GeneticConfiguration F → PathFinderStrategy F
    unfolding goals_of
    genetic_find_path config game_state main_unit target_unit = do
      distance ← lift (calc_euclidean_distance ops main_unit.coordinate target_unit.coordinate)
      let throttle_input : ThrottleCalculationInput F = record {
        v0 = main_unit.speed;
        mass = main_unit.mass;
        friction = main_unit.friction;
        d_target = distance;
      }
      result ← find_optimal_throttle_sequence ops throttle_input config
      goals_of target_unit.coordinate result.sequence

  -- LLMPathFinderStrategy
  unfoldable pub llm_find_path : PathFinderStrategy F
  llm_find_path game_state main_unit target_unit = return (
      record { coordinate = main_unit.coordinate; throttle = 0 }
      ∷ record { coordinate = main_unit.coordinate; throttle = 1 }
      ∷ [])

  -- game_state.player_units[0] and game_state.enemy_units[0], with what they do on an empty list
  first_units :
      PathFinderStrategy F
      → GameState F
      → List (GameUnit F)
      → List (GameUnit F)
      → Exec Host (List (UnitGoal F))
  first_units find_path game_state [] enemies = raise (other "list index out of range")
  first_units find_path game_state (player ∷ players) [] = raise (other "list index out of range")
  first_units find_path game_state (player ∷ players) (enemy ∷ enemies) =
      find_path game_state player enemy

  -- ThrottleStepsService.calculate_throttle_steps
  unfoldable pub calculate_throttle_steps :
      PathFinderStrategy F → GameState F → Exec Host (List (UnitGoal F))
  unfolding first_units
  calculate_throttle_steps find_path game_state =
      first_units find_path game_state game_state.player_units game_state.enemy_units

  -- GameStateV1Mapper.from_dto
  unfoldable pub unit_from_dto : UnitDto F → GameUnit F
  unit_from_dto unit = record {
    coordinate = record { x = unit.coordinate.x; y = unit.coordinate.y };
    speed = unit.speed;
    mass = unit.mass;
    friction = unit.friction;
  }

  unfoldable pub game_state_from_dto : GameStateDto F → GameState F
  unfolding unit_from_dto
  game_state_from_dto game_state_dto = record {
    player_units = map unit_from_dto game_state_dto.player_units;
    enemy_units = map unit_from_dto game_state_dto.enemy_units;
  }

  -- UnitGoalMapperV1.to_dto
  unfoldable pub unit_goal_to_dto : UnitGoal F → UnitGoalDto F
  unit_goal_to_dto unit_goal = record {
    coordinate = unit_goal.coordinate;
    throttle = unit_goal.throttle;
  }

  unfoldable pub throttle_steps :
      PathFinderStrategy F → GameStateDto F → Host → Answer (List (UnitGoalDto F)) × Host
  unfolding unit_goal_to_dto game_state_from_dto
  throttle_steps find_path state s =
      let (r, s') =
        (do
          goals ← calculate_throttle_steps find_path (game_state_from_dto state)
          return (map unit_goal_to_dto goals))
          s in
      (or_400 r, s')
