-- ===== src/Composition/Factories.antt =====
-- The two factories of llm_agent/llm_agent/di/registrars/throttle_step_service.py, and what the routes of
-- llm_agent/llm_agent/api/http/v1/routes ask the container of a request for.
use python_agent_with_idp.Exec.{Outcome, returned}
use python_agent_with_idp.Exec.Results.{◌>>=◌}
use python_agent_with_idp.Composition.{
  Instance, genetic_path_finder_strategy, throttle_steps_service, Svcs,
}

module _ {F : Type 0} (svcs : Svcs (Instance F)) where
  unfoldable pub get_path_finder : svcs.Container → Outcome (Instance F)
  get_path_finder svcs_container = do
    configuration ← svcs.get svcs_container "GeneticConfiguration"
    returned (genetic_path_finder_strategy configuration)

  unfoldable pub get_throttle_step_service : svcs.Container → Outcome (Instance F)
  get_throttle_step_service svcs_container = do
    path_finder ← svcs.get svcs_container "PathFinderStrategy"
    returned (throttle_steps_service path_finder)

  -- get_run_service of agent.py: the store and the queue that the service is made with
  unfoldable pub get_run_service : svcs.Container → Outcome (Instance F × Instance F)
  get_run_service services = do
    run_store ← svcs.get services "RunIntakeStore"
    run_signal_queue ← svcs.get services "RunSignalQueue"
    returned (run_store, run_signal_queue)

  -- get_throttle_step_service of throttle_steps_calculator.py
  abbrev pub route_throttle_step_service : svcs.Container → Outcome (Instance F)
  route_throttle_step_service services = svcs.get services "ThrottleStepsService"
