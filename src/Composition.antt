-- ===== src/Composition.antt =====
-- The composition root: llm_agent/llm_agent/di, `register_middlewares` of llm_agent/llm_agent/app.py,
-- and llm_agent/llm_agent/infrastructure/infra_setup.
--
-- The container library svcs is a parameter. An instance is a value here, so that it does not matter
-- that a container keeps the instances that it has made.
pub mod Factories
pub mod Registrars
pub mod Production
pub mod Root
pub mod Lifespan
pub mod Stopped
use python_agent_with_idp.Prelude.{String, Option, none, some, List, [], ◌∷◌}
use python_agent_with_idp.Exec.{Outcome, returned, raised, Exec, Done, return, ◌>>◌}
use python_agent_with_idp.Exec.Results.{◌>>=◌}
use python_agent_with_idp.Authentication.Manager.{OpenIdConfiguration}
use python_agent_with_idp.PathFinding.{GeneticConfiguration}
use python_agent_with_idp.Worker.{Worker}

-- A class that services are registered under, by its name.
abbrev pub ServiceType : Type 0
ServiceType = String

-- The objects that are registered, over the type of Python's floats.
pub data Instance (F : Type 0) : Type 0 where
  static_open_id_configuration_provider : OpenIdConfiguration → Instance F
  jwt_validation_client : Instance F
  jwt_authentication_manager : Instance F → Instance F → Instance F
  production_context_enricher : Instance F
  random_game_state_retriever : Instance F
  genetic_configuration : GeneticConfiguration F → Instance F
  genetic_path_finder_strategy : Instance F → Instance F
  throttle_steps_service : Instance F → Instance F
  in_memory_consumer : Worker → Instance F

-- What stands in a registry for a service: a value, or a function of a container.
pub data Registered (Container I : Type 0) : Type 0 where
  registered_value : I → Registered Container I
  registered_factory : (Container → Outcome I) → Registered Container I

-- svcs: Registry(), the methods of a registry, Container(registry) and container.get(service).
-- `get_registered_service_for` is none where the library raises ServiceNotFoundError.
pub record Svcs (I : Type 0) : Type 1 where
  pub Registry : Type 0
  pub Container : Type 0
  pub new_registry : Registry
  pub register_value : ServiceType → I → Registry → Registry
  pub register_factory : ServiceType → (Container → Outcome I) → Registry → Registry
  pub get_registered_service_for : Registry → ServiceType → Option (Registered Container I)
  pub container : Registry → Container
  pub get : Container → ServiceType → Outcome I

-- app.add_middleware(...): the middleware and the object that it is made with.
pub data Middleware (I : Type 0) : Type 0 where
  authentication_middleware : I → Middleware I
  execution_context_middleware : I → Middleware I

module _ {I : Type 0} (svcs : Svcs I) where
  -- Registrar.register
  abbrev pub Registrar : Type 0
  Registrar = Exec svcs.Registry Done

  pub record ApplicationDiConfig : Type 0 where
    pub app_lifetime_registrars : List Registrar
    pub fastapi_lifespan_registrars : List Registrar
    pub infrastructure_registrars : List Registrar

  -- The application: the registry of its lifespan, its state, and its middlewares, the outermost
  -- first. The infrastructure setup is the LocalDevInfrastructureSetup with this consumer.
  pub record FastApi : Type 0 where
    pub registry : svcs.Registry
    pub fastapi_lifespan_registrars : List Registrar
    pub infrastructure_container : svcs.Container
    pub infrastructure_consumer : I
    pub middlewares : List (Middleware I)

  -- for registrar in registrars: registrar.register(registry)
  unfoldable pub register_all : List Registrar → Registrar
  register_all [] = return tt
  register_all (registrar ∷ registrars) = registrar >> register_all registrars

  -- The registry that was given, or a new one, as the registrars leave it. A registry object counts as
  -- true.
  unfoldable pub apply_registrars :
      List Registrar → Option svcs.Registry → Outcome Done × svcs.Registry
  unfolding register_all
  apply_registrars registrars none = register_all registrars svcs.new_registry
  apply_registrars registrars (some registry) = register_all registrars registry

  -- The result of a function that is called on a new object, with that object.
  abbrev pub with_object : {A S : Type 0} → Outcome A × S → Outcome S
  with_object (r, s) = r >>= λ a. returned s

  unfoldable pub build_infra_setup : ApplicationDiConfig → Outcome (svcs.Container × I)
  unfolding apply_registrars
  build_infra_setup app_registrars = do
    infra_registry ←
        with_object
          (apply_registrars app_registrars.infrastructure_registrars (some svcs.new_registry))
    let infra_container = svcs.container infra_registry
    consumer ← svcs.get infra_container "Consumer"
    returned (infra_container, consumer)

  -- The middleware that is added last stands outermost.
  unfoldable pub registered_middlewares : svcs.Container → Outcome (List (Middleware I))
  registered_middlewares di_container = do
    authentication_manager ← svcs.get di_container "AsyncAuthenticationManager"
    execution_context_enricher ← svcs.get di_container "ExecutionContextEnricher"
    returned (
        execution_context_middleware execution_context_enricher
        ∷ authentication_middleware authentication_manager
        ∷ [])

  -- From the configuration that the registrar provider gives.
  unfoldable pub create_app_with_selected_di : ApplicationDiConfig → Outcome FastApi
  unfolding apply_registrars build_infra_setup registered_middlewares
  create_app_with_selected_di app_registrars = do
    app_scoped_registry ←
        with_object
          (apply_registrars app_registrars.app_lifetime_registrars (some svcs.new_registry))
    infra ← build_infra_setup app_registrars
    middlewares ← registered_middlewares (svcs.container app_scoped_registry)
    returned (record {
      registry = app_scoped_registry;
      fastapi_lifespan_registrars = app_registrars.fastapi_lifespan_registrars;
      infrastructure_container = infra.0;
      infrastructure_consumer = infra.1;
      middlewares = middlewares;
    })
