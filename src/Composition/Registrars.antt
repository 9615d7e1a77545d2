-- ===== src/Composition/Registrars.antt =====
-- llm_agent/llm_agent/di/registrars, llm_agent/llm_agent/di/app_registrar_providers.py, and the defaults of
-- llm_agent/llm_agent/domain/genetic_path/configuration.py.
use python_agent_with_idp.Prelude.{ℕ, [], ◌∷◌}
use python_agent_with_idp.Exec.{modify, return, ◌>>◌}
use python_agent_with_idp.Authentication.Manager.{production_configuration}
use python_agent_with_idp.PathFinding.{GeneticConfiguration}
use python_agent_with_idp.Composition.Factories.{get_path_finder, get_throttle_step_service}
use python_agent_with_idp.Composition.{
  Instance, static_open_id_configuration_provider, jwt_validation_client,
  jwt_authentication_manager, production_context_enricher, random_game_state_retriever,
  genetic_configuration, Svcs, Registrar, ApplicationDiConfig,
}

-- GeneticConfiguration(). `decimal n k` is the float that is written with the digits of `n`, the last
-- `k` of them behind the point.
abbrev pub default_genetic_configuration : {F : Type 0} → (ℕ → ℕ → F) → GeneticConfiguration F
default_genetic_configuration decimal = record {
  max_sequence_length = 100;
  population_size = 600;
  num_generations = 300;
  mutation_rate = decimal 1 1;
  num_best_parents = 20;
  num_worst_parents = 10;
  speed_threshold = 5;
  throttle_range = (0, 300);
  distance_weight = decimal 10 1;
  speed_weight = decimal 5 1;
  length_weight = decimal 1 2;
  nonzero_weight = decimal 1 2;
  timeout_ms = 1000;
}

-- The two objects that the manager is made of, and the manager.
abbrev pub openid_conf_provider : {F : Type 0} → Instance F
openid_conf_provider = static_open_id_configuration_provider production_configuration

abbrev pub auth_manager : {F : Type 0} → Instance F
auth_manager = jwt_authentication_manager jwt_validation_client openid_conf_provider

module _ {F : Type 0} (svcs : Svcs (Instance F)) (decimal : ℕ → ℕ → F) where
  -- ProdAuthRegistrar
  unfoldable pub prod_auth_registrar : Registrar svcs
  prod_auth_registrar = do
    modify (svcs.register_value "OpenIdConfigurationProvider" openid_conf_provider)
    modify (svcs.register_value "TokenValidationClient" jwt_validation_client)
    modify (svcs.register_value "AsyncAuthenticationManager" auth_manager)
    modify (svcs.register_value "ExecutionContextEnricher" production_context_enricher)

  -- ThrottleStepsServiceRegistrar
  unfoldable pub throttle_steps_service_registrar : Registrar svcs
  unfolding get_path_finder get_throttle_step_service
  throttle_steps_service_registrar = do
    modify (svcs.register_factory "PathFinderStrategy" (get_path_finder svcs))
    modify (
        svcs.register_value "GeneticConfiguration"
          (genetic_configuration (default_genetic_configuration decimal)))
    modify (svcs.register_factory "ThrottleStepsService" (get_throttle_step_service svcs))

  -- GameStateRegistrar
  unfoldable pub game_state_registrar : Registrar svcs
  game_state_registrar =
      modify (svcs.register_value "GameStateRetriever" random_game_state_retriever)

  -- RunOrchestrationRegistrar, which registers nothing
  abbrev pub run_orchestration_registrar : Registrar svcs
  run_orchestration_registrar = return tt

  unfoldable pub get_production_registrars : ApplicationDiConfig svcs
  unfolding prod_auth_registrar throttle_steps_service_registrar game_state_registrar
  get_production_registrars = record {
    app_lifetime_registrars = prod_auth_registrar ∷ [];
    fastapi_lifespan_registrars =
        throttle_steps_service_registrar ∷ game_state_registrar ∷ run_orchestration_registrar ∷ [];
    infrastructure_registrars = [];
  }
