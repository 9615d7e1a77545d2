-- ===== src/Worker.antt =====
-- llm_agent/agent_run_worker/domain/runs/execution_context.py, and the fields of the consumer and
-- of its lease scope: what one worker process reads and writes.
--
-- The consumer and its lease scope share one execution context. The context is the consumer's
-- field here: no code reads it once that field is reset.
pub mod Lease
pub mod Executor
pub mod Consumer
pub mod Endings
pub mod Settled
pub mod Checkpoints
pub mod History
pub mod Shutdown
pub mod Beats
pub mod Sound
use python_agent_with_idp.Prelude.{
  ◌≡◌, String, Bool, true, false, Option, none, some, if◌then◌else◌,
}
use python_agent_with_idp.Json.{Fields}
use python_agent_with_idp.Run.Status.{Uuid, RunEvent}
use python_agent_with_idp.Exec.{Outcome, Done, Exec, gets, modify}
use python_agent_with_idp.Runtime
use python_agent_with_idp.Runtime.{InMemoryRuntime}

-- `cancellation_event` is whether the event is set.
pub record RunExecutionContext : Type 0 where
  pub run_id : Uuid
  pub cancellation_event : Bool

abbrev pub new_context : Uuid → RunExecutionContext
new_context run_id = record { run_id = run_id; cancellation_event = false }

unfoldable pub cancel : RunExecutionContext → RunExecutionContext
cancel ctx = record ctx { cancellation_event = true }

unfoldable pub is_cancelled : RunExecutionContext → Bool
is_cancelled ctx = ctx.cancellation_event

-- One worker process and the runtime that it shares. `lease_running` is the flag of the lease scope,
-- and `heartbeat_task` is whether its task still runs.
pub record Worker : Type 0 where
  pub runtime : InMemoryRuntime
  pub execution_allowed : Bool
  pub current_run_execution_ctx : Option RunExecutionContext
  pub lease_running : Bool
  pub heartbeat_task : Bool

abbrev pub new_worker : InMemoryRuntime → Worker
new_worker runtime = record {
  runtime = runtime;
  execution_allowed = true;
  current_run_execution_ctx = none;
  lease_running = false;
  heartbeat_task = false;
}

-- A method of the shared runtime.
unfoldable pub on_runtime : {A : Type 0} → Exec InMemoryRuntime A → Exec Worker A
on_runtime m w = let (r, s) = m w.runtime in (r, record w { runtime = s })

unfoldable pub emit_event : RunExecutionContext → String → Fields → Exec Worker RunEvent
emit_event ctx event_type payload = on_runtime (Runtime.append_event ctx.run_id event_type payload)

cancel_if_any : Option RunExecutionContext → Option RunExecutionContext
unfolding cancel
cancel_if_any none = none
cancel_if_any (some ctx) = some (cancel ctx)

-- ctx.cancel() on the context of the current run, if there is one
unfoldable pub cancel_current : Worker → Worker
unfolding cancel_if_any
cancel_current w = record w {
  current_run_execution_ctx = cancel_if_any w.current_run_execution_ctx;
}

cancelled_if_any : Option RunExecutionContext → Bool
unfolding is_cancelled
cancelled_if_any none = false
cancelled_if_any (some ctx) = is_cancelled ctx

-- ctx.is_cancelled() on the context of the current run
unfoldable pub current_is_cancelled : Worker → Bool
unfolding cancelled_if_any
current_is_cancelled w = cancelled_if_any w.current_run_execution_ctx
