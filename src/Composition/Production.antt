-- ===== src/Composition/Production.antt =====
-- What the production configuration registers, and what the composition root makes of it.
use python_agent_with_idp.Prelude.{
  ℕ, ◌≡◌, refl, ◌∙◌, str_eq, if◌then◌else◌, none, some, List, [], ◌∷◌,
}
use python_agent_with_idp.Error.{service_not_found}
use python_agent_with_idp.Exec.{Outcome, returned, raised, ◌>>=◌}
use python_agent_with_idp.Exec.Results as Results
use python_agent_with_idp.Composition.{
  ServiceType, Instance, production_context_enricher, genetic_configuration,
  genetic_path_finder_strategy, throttle_steps_service, registered_value, registered_factory, Svcs,
  Registrar, authentication_middleware, execution_context_middleware, FastApi, register_all,
  apply_registrars, build_infra_setup, registered_middlewares, create_app_with_selected_di,
}
use python_agent_with_idp.Composition.Factories.{
  get_run_service, route_throttle_step_service, get_path_finder, get_throttle_step_service,
}
use python_agent_with_idp.Composition.Registrars.{
  default_genetic_configuration, auth_manager, prod_auth_registrar,
  throttle_steps_service_registrar, game_state_registrar, get_production_registrars,
}

-- The documentation of svcs: the last registration of a service is the one that counts, a container
-- gives the registered value, and a service that is not registered is not found.
pub record IsDocumented {I : Type 0} (svcs : Svcs I) : Type 0 where
  pub starts_empty :
      (service : ServiceType) → svcs.get_registered_service_for svcs.new_registry service ≡ none
  pub registers_value :
      (service : ServiceType) (i : I) (registry : svcs.Registry) (other : ServiceType)
      → svcs.get_registered_service_for (svcs.register_value service i registry) other ≡ (
          if str_eq service other
          then some (registered_value i)
          else svcs.get_registered_service_for registry other)
  pub registers_factory :
      (service : ServiceType) (f : svcs.Container → Outcome I) (registry : svcs.Registry)
      (other : ServiceType)
      → svcs.get_registered_service_for (svcs.register_factory service f registry) other ≡ (
          if str_eq service other
          then some (registered_factory f)
          else svcs.get_registered_service_for registry other)
  pub gets_value :
      (registry : svcs.Registry) (service : ServiceType) (i : I)
      → svcs.get_registered_service_for registry service ≡ some (registered_value i)
      → svcs.get (svcs.container registry) service ≡ returned i
  pub gets_none :
      (registry : svcs.Registry) (service : ServiceType)
      → svcs.get_registered_service_for registry service ≡ none
      → svcs.get (svcs.container registry) service ≡ raised (service_not_found service)

-- A container on this registry calls the registered factories with itself.
abbrev pub CallsFactories : {I : Type 0} (svcs : Svcs I) → svcs.Registry → Type 0
CallsFactories {I = I} svcs registry =
    (service : ServiceType) (f : svcs.Container → Outcome I)
    → svcs.get_registered_service_for registry service ≡ some (registered_factory f)
    → svcs.get (svcs.container registry) service ≡ f (svcs.container registry)

module _ {F : Type 0} (svcs : Svcs (Instance F)) (decimal : ℕ → ℕ → F) where
  -- The shared registry, before the lifespan begins and when it has.
  abbrev pub app_registry : svcs.Registry
  app_registry =
      (register_all svcs (get_production_registrars svcs decimal).app_lifetime_registrars
        svcs.new_registry).1

  abbrev pub lifespan_registry : svcs.Registry
  lifespan_registry =
      (register_all svcs (get_production_registrars svcs decimal).fastapi_lifespan_registrars
        app_registry).1

  -- The application with this container and consumer of the infrastructure.
  abbrev pub production_fast_api : svcs.Container → Instance F → FastApi svcs
  production_fast_api infra_container consumer = record {
    registry = app_registry;
    fastapi_lifespan_registrars =
        (get_production_registrars svcs decimal).fastapi_lifespan_registrars;
    infrastructure_container = infra_container;
    infrastructure_consumer = consumer;
    middlewares =
        execution_context_middleware production_context_enricher
        ∷ authentication_middleware auth_manager
        ∷ [];
  }

  module _ (documented : IsDocumented svcs) where
    middlewares_registered :
        registered_middlewares svcs (svcs.container app_registry)
        ≡ returned (
            execution_context_middleware production_context_enricher
            ∷ authentication_middleware auth_manager
            ∷ [])
    unfolding get_production_registrars register_all prod_auth_registrar registered_middlewares
        ◌>>=◌ Results.◌>>=◌
    middlewares_registered =
        let manager =
          documented.gets_value app_registry "AsyncAuthenticationManager" auth_manager
            (simp (documented.registers_value) refl) in
        let enricher =
          documented.gets_value app_registry "ExecutionContextEnricher" production_context_enricher
            (simp (documented.registers_value) refl) in
        rw (manager, enricher) refl

    pub production_fails :
        create_app_with_selected_di svcs (get_production_registrars svcs decimal)
        ≡ raised (service_not_found "Consumer")
    unfolding create_app_with_selected_di apply_registrars build_infra_setup
        get_production_registrars register_all prod_auth_registrar ◌>>=◌ Results.◌>>=◌
    production_fails =
        rw (documented.gets_none svcs.new_registry "Consumer" (documented.starts_empty "Consumer"))
          refl

    -- With a container library that behaves as documented, and infrastructure registrars
    -- under which a consumer is registered, the production configuration with these
    -- registrars composes an application with this consumer, with the registry of the
    -- production registrars, and with the execution context middleware around the
    -- authentication middleware, each with the object of that registry. The production
    -- configuration as it is raises ServiceNotFoundError for the consumer.
    pub production_app :
        (infrastructure_registrars : List (Registrar svcs)) (infra_registry : svcs.Registry)
        (consumer : Instance F)
        → register_all svcs infrastructure_registrars svcs.new_registry
          ≡ (returned tt, infra_registry)
        → svcs.get (svcs.container infra_registry) "Consumer" ≡ returned consumer
        → (create_app_with_selected_di svcs (record (get_production_registrars svcs decimal) {
          infrastructure_registrars = infrastructure_registrars;
        })
            ≡ returned (production_fast_api (svcs.container infra_registry) consumer))
          × (create_app_with_selected_di svcs (get_production_registrars svcs decimal)
              ≡ raised (service_not_found "Consumer"))
    unfolding create_app_with_selected_di apply_registrars build_infra_setup
        get_production_registrars register_all prod_auth_registrar ◌>>=◌ Results.◌>>=◌
    production_app infrastructure_registrars infra_registry consumer e found =
        (rw (e, found, middlewares_registered) refl, production_fails)

    -- With a container library that behaves as documented and calls the factories of this
    -- registry with the container itself, a container on the registry of the lifespan of the
    -- production configuration gives the throttle route its service over the genetic path
    -- finder with the default configuration, and gives the JWT authentication manager; the
    -- run routes get no service, since it raises ServiceNotFoundError for the intake store.
    pub production_services :
        CallsFactories svcs lifespan_registry
        → (route_throttle_step_service svcs (svcs.container lifespan_registry)
            ≡ returned (
                throttle_steps_service (
                  genetic_path_finder_strategy
                    (genetic_configuration (default_genetic_configuration decimal)))))
          × (svcs.get (svcs.container lifespan_registry) "AsyncAuthenticationManager"
              ≡ returned auth_manager)
          × (get_run_service svcs (svcs.container lifespan_registry)
              ≡ raised (service_not_found "RunIntakeStore"))
    unfolding get_production_registrars register_all prod_auth_registrar
        throttle_steps_service_registrar game_state_registrar get_run_service get_path_finder
        get_throttle_step_service ◌>>=◌ Results.◌>>=◌
    production_services calls =
        let configuration =
          documented.gets_value lifespan_registry "GeneticConfiguration"
            (genetic_configuration (default_genetic_configuration decimal))
            (simp (documented.registers_value, documented.registers_factory) refl) in
        let path_finder =
          calls "PathFinderStrategy" (get_path_finder svcs)
            (simp (documented.registers_value, documented.registers_factory) refl) in
        let service =
          calls "ThrottleStepsService" (get_throttle_step_service svcs)
            (simp (documented.registers_value, documented.registers_factory) refl) in
        (
          service ∙ rw (path_finder, configuration) refl,
          documented.gets_value lifespan_registry "AsyncAuthenticationManager" auth_manager
              (simp (documented.registers_value, documented.registers_factory) refl),
          rw
              (documented.gets_none lifespan_registry "RunIntakeStore" (
                simp
                  (
                    documented.registers_value, documented.registers_factory,
                    documented.starts_empty,
                  )
                  refl))
              refl,
        )
