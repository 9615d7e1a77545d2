-- ===== src/Composition/Lifespan.antt =====
-- llm_agent/llm_agent/di/fastapi_lifespan.py and the two setups of
-- llm_agent/llm_agent/infrastructure/infra_setup.
use python_agent_with_idp.Prelude.{Option, none, some, List}
use python_agent_with_idp.Exec.{Outcome, Exec, Done, return, lift, gets, modify, ◌>>=◌, ◌>>◌}
use python_agent_with_idp.SignalQueue
use python_agent_with_idp.Worker.{Worker}
use python_agent_with_idp.Worker.Lease
use python_agent_with_idp.Worker.Executor.{shutdown_execution}
use python_agent_with_idp.Worker.Consumer.{forget_context}
use python_agent_with_idp.Composition.{Svcs, Registrar, register_all}

-- try: ... finally: ..., where the `finally` may raise, too
unfoldable pub finally_await : {S A : Type 0} → Exec S A → Exec S Done → Exec S A
finally_await body cleanup s = let (reply, s') = body s in (cleanup >> lift reply) s'

-- The protocol InfrastructureSetup.
pub record InfrastructureSetup (S : Type 0) : Type 0 where
  pub setup : Exec S Done
  pub shutdown : Exec S Done

-- di_lifespan around what happens between start-up and shutdown, on the registry and the state of
-- the infrastructure.
module _ {I S : Type 0} (svcs : Svcs I) (infra_setup : InfrastructureSetup S) where
  unfoldable pub on_registry : Registrar svcs → Exec (svcs.Registry × S) Done
  on_registry registrar (registry, s) =
      let (reply, registry') = registrar registry in (reply, (registry', s))

  unfoldable pub on_infrastructure : Exec S Done → Exec (svcs.Registry × S) Done
  on_infrastructure m (registry, s) = let (reply, s') = m s in (reply, (registry, s'))

  unfoldable pub lifespan_body :
      List (Registrar svcs) → Exec (svcs.Registry × S) Done → Exec (svcs.Registry × S) Done
  unfolding register_all on_registry on_infrastructure
  lifespan_body fastapi_lifespan_registrars serve = do
    on_registry (register_all svcs fastapi_lifespan_registrars)
    on_infrastructure infra_setup.setup
    serve

  unfoldable pub di_lifespan :
      List (Registrar svcs) → Exec (svcs.Registry × S) Done → Exec (svcs.Registry × S) Done
  unfolding lifespan_body on_infrastructure finally_await
  di_lifespan fastapi_lifespan_registrars serve =
      finally_await (lifespan_body fastapi_lifespan_registrars serve)
        (on_infrastructure infra_setup.shutdown)

-- Where the consumption loop is suspended: it has not begun, it waits for a signal, it is in the
-- executor, or it is in `__aexit__`, with what `execute_run` has returned or raised.
pub data Place : Type 0 where
  not_started : Place
  waiting : Place
  executing : Place
  leaving : Outcome Done → Place

-- The task of the consumption loop: it still runs, it ended by itself, or it was cancelled.
pub data Task : Type 0 where
  active : Place → Task
  ended : Outcome Done → Task
  cancelled : Task

-- LocalDevInfrastructureSetup, with the state of its consumer.
pub record LocalDev : Type 0 where
  pub consumer : Worker
  pub task : Option Task

unfoldable pub setup : Exec LocalDev Done
setup = modify (λ s. record s { task = some (active not_started) })

-- What asyncio.CancelledError passes in the consumer: nothing, the `finally` of `wait`, the
-- `finally` of `execute_run` and `__aexit__`, or the rest of `__aexit__`.
unfoldable pub unwind : Place → Worker → Worker
unfolding SignalQueue.wait Lease.exit
unwind not_started w = w
unwind waiting w = record w {
  runtime = record w.runtime { run_signal_queue = SignalQueue.wait w.runtime.run_signal_queue };
}
unwind executing w = Lease.exit (forget_context w)
unwind (leaving reply) w = Lease.exit w

-- `__aexit__` catches it: what `execute_run` has raised goes on, and else the loop ends, since no
-- execution is allowed any more.
unfoldable pub end_of : Place → Task
end_of (leaving reply) = ended reply
end_of _ = cancelled

-- await self._task, with asyncio.CancelledError suppressed
unfoldable pub await_task : Task → Exec LocalDev Done
await_task (ended reply) = lift reply
await_task _ = return tt

-- The task is cancelled, and awaited. A task that has ended cannot be cancelled any more.
unfoldable pub stop_task : Option Task → Exec LocalDev Done
unfolding unwind end_of await_task
stop_task none = return tt
stop_task (some (active place)) = do
  modify (λ s. record { consumer = unwind place s.consumer; task = some (end_of place) })
  await_task (end_of place)
stop_task (some task) = await_task task

unfoldable pub shutdown : Exec LocalDev Done
unfolding stop_task shutdown_execution
shutdown = do
  modify (λ s. record s { consumer = shutdown_execution s.consumer })
  task ← gets (λ s. s.task)
  stop_task task

unfoldable pub local_dev : InfrastructureSetup LocalDev
unfolding setup shutdown
local_dev = record { setup = setup; shutdown = shutdown }

-- ProductionInfrastructureSetup, over the two operations of Piccolo's engine
unfoldable pub production : {DB : Type 0} → Exec DB Done → Exec DB Done → InfrastructureSetup DB
production start_connection_pool close_connection_pool = record {
  setup = start_connection_pool;
  shutdown = close_connection_pool;
}
