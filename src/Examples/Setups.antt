-- ===== src/Examples/Setups.antt =====
-- The composition with a small container library, whose factories may call each other five deep, and a
-- lifespan that is left while the consumer waits.
use python_agent_with_idp.Prelude.{
  ℕ, String, zero, suc, ◌≡◌, ◌∙◌, refl, ◌⊎◌, arith, inl, inr, str_eq, if◌then◌else◌, Option, none,
  some, List, [], ◌∷◌,
}
use python_agent_with_idp.Error.{service_not_found, other}
use python_agent_with_idp.Exec.{Outcome, returned, raised, Exec, Done, raise, modify, ◌>>=◌}
use python_agent_with_idp.Exec.Results as Results
use python_agent_with_idp.Composition.{
  ServiceType, Instance, in_memory_consumer, throttle_steps_service, genetic_path_finder_strategy,
  genetic_configuration, create_app_with_selected_di, Registered, registered_value,
  registered_factory, Svcs, Registrar, register_all,
}
use python_agent_with_idp.Composition.Factories.{
  get_run_service, route_throttle_step_service, get_path_finder, get_throttle_step_service,
}
use python_agent_with_idp.Composition.Registrars.{
  auth_manager, default_genetic_configuration, get_production_registrars, prod_auth_registrar,
  throttle_steps_service_registrar, game_state_registrar,
}
use python_agent_with_idp.Composition.Root.{
  Environment, compose_fastapi_app_with_registrars, default_composition_fails,
}
use python_agent_with_idp.Composition.Lifespan
use python_agent_with_idp.Composition.Lifespan.{LocalDev, local_dev, di_lifespan}
use python_agent_with_idp.Composition.Stopped.{after_task, IsStopped, lifespan_stops_consumer}
use python_agent_with_idp.Policy.{RunTransitionPolicy}
use python_agent_with_idp.Worker.{new_worker}
use python_agent_with_idp.Worker.Consumer.{Round, consume_and_execute_loop}
use python_agent_with_idp.Examples.{started}
use python_agent_with_idp.Composition.Production.{
  IsDocumented, CallsFactories, lifespan_registry, production_fast_api, production_app,
  production_services,
}

-- A container is what it gives for each service, and a registry what is registered for it.
abbrev I : Type 0
I = Instance ℕ

abbrev Container : Type 0
Container = ServiceType → Outcome I

abbrev Registry : Type 0
Registry = ServiceType → Option (Registered Container I)

make : ServiceType → Container → Option (Registered Container I) → Outcome I
make service container none = raised (service_not_found service)
make service container (some (registered_value i)) = returned i
make service container (some (registered_factory f)) = f container

-- The container with this depth of calls.
give : ℕ → Registry → Container
unfolding make
give zero registry service = raised (other "RecursionError")
give (suc depth) registry service = make service (give depth registry) (registry service)

put : ServiceType → Registered Container I → Registry → Registry
put service entry registry other_service =
    if str_eq service other_service then some entry else registry other_service

abbrev small_svcs : Svcs I
small_svcs = record {
  Registry = Registry;
  Container = Container;
  new_registry = λ service. none;
  register_value = λ service i. put service (registered_value i);
  register_factory = λ service f. put service (registered_factory f);
  get_registered_service_for = λ registry service. registry service;
  container = give 5;
  get = λ container service. container service;
}

small_svcs_gets :
    (registry : Registry) (service : ServiceType) (entry : Option (Registered Container I))
    → registry service ≡ entry
    → give 5 registry service ≡ make service (give 4 registry) entry
unfolding give
small_svcs_gets registry service entry e = rw e refl

small_svcs-IsDocumented : IsDocumented small_svcs
unfolding put make
small_svcs-IsDocumented = record {
  starts_empty = λ service. refl;
  registers_value = λ service i registry other_service. refl;
  registers_factory = λ service f registry other_service. refl;
  gets_value =
      λ registry service i e. small_svcs_gets registry service (some (registered_value i)) e;
  gets_none = λ registry service e. small_svcs_gets registry service none e;
}

abbrev decimals : ℕ → ℕ → ℕ
decimals n k = n

abbrev registry : Registry
registry = lifespan_registry small_svcs decimals

registered_factories :
    (service : ServiceType) (f : Container → Outcome I)
    → registry service ≡ some (registered_factory f)
    → (f ≡ get_throttle_step_service small_svcs) ⊎ (f ≡ get_path_finder small_svcs)
unfolding put register_all get_production_registrars prod_auth_registrar
    throttle_steps_service_registrar game_state_registrar ◌>>=◌
registered_factories service f e = ground arith

small_svcs-CallsFactories : CallsFactories small_svcs registry
unfolding put give make register_all get_production_registrars prod_auth_registrar
    throttle_steps_service_registrar game_state_registrar get_path_finder get_throttle_step_service
    ◌>>=◌ Results.◌>>=◌
small_svcs-CallsFactories service f e =
    small_svcs_gets registry service (some (registered_factory f)) e
    ∙ elim (registered_factories service f e) [
      | inl throttle ↦ rw throttle refl
      | inr path ↦ rw path refl
    ]

-- A consumer is registered for the infrastructure.
abbrev consumer : I
consumer = in_memory_consumer (new_worker started)

abbrev consumer_registrar : Registrar small_svcs
consumer_registrar = modify (small_svcs.register_value "Consumer" consumer)

abbrev infra_registry : Registry
infra_registry = small_svcs.register_value "Consumer" consumer (λ service. none)

consumer_registers :
    register_all small_svcs (consumer_registrar ∷ []) small_svcs.new_registry
    ≡ (returned tt, infra_registry)
unfolding register_all ◌>>=◌
consumer_registers = refl

consumer_found : small_svcs.get (small_svcs.container infra_registry) "Consumer" ≡ returned consumer
unfolding put make give
consumer_found = refl

production_app_example :
    (create_app_with_selected_di small_svcs
        (record (get_production_registrars small_svcs decimals) {
          infrastructure_registrars = consumer_registrar ∷ [];
        })
      ≡ returned
          (production_fast_api small_svcs decimals (small_svcs.container infra_registry) consumer))
    × (create_app_with_selected_di small_svcs (get_production_registrars small_svcs decimals)
        ≡ raised (service_not_found "Consumer"))
production_app_example =
    production_app small_svcs decimals small_svcs-IsDocumented (consumer_registrar ∷ [])
      infra_registry consumer consumer_registers consumer_found

production_services_example :
    (route_throttle_step_service small_svcs (small_svcs.container registry)
      ≡ returned (
          throttle_steps_service (
            genetic_path_finder_strategy
              (genetic_configuration (default_genetic_configuration decimals)))))
    × (small_svcs.get (small_svcs.container registry) "AsyncAuthenticationManager"
        ≡ returned auth_manager)
    × (get_run_service small_svcs (small_svcs.container registry)
        ≡ raised (service_not_found "RunIntakeStore"))
production_services_example =
    production_services small_svcs decimals small_svcs-IsDocumented small_svcs-CallsFactories

-- Nothing is set in the environment, and each import gives the production registrars.
abbrev environment : Environment small_svcs
environment = record {
  getenv = λ key. none;
  import_provider = λ module_name function_name.
      returned (returned (get_production_registrars small_svcs decimals));
}

default_composition_fails_example :
    compose_fastapi_app_with_registrars small_svcs environment
    ≡ raised (service_not_found "Consumer")
default_composition_fails_example =
    default_composition_fails small_svcs decimals environment small_svcs-IsDocumented refl refl

-- The application fails.
abbrev serve : Exec (Registry × LocalDev) Done
serve = raise (other "crash")

abbrev idle : Registry × LocalDev
idle = (registry, record { consumer = new_worker started; task = none })

lifespan_stops_consumer_example :
    let (reply, (before, served)) = Lifespan.lifespan_body small_svcs local_dev [] serve idle in
    let (last, (after, stopped)) = di_lifespan small_svcs local_dev [] serve idle in
    (after ≡ before)
    × (last ≡ after_task served.task reply)
    × IsStopped served stopped
    × ((policy : RunTransitionPolicy) (worker_id : String) (rounds : List Round)
        → consume_and_execute_loop policy worker_id rounds stopped.consumer
          ≡ (returned tt, stopped.consumer))
lifespan_stops_consumer_example = lifespan_stops_consumer small_svcs [] serve idle
