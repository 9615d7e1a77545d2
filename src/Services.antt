-- ===== src/Services.antt =====
-- The protocols of the stores, as the API and the workers see them:
-- llm_agent/llm_agent/services/agent/store.py,
-- llm_agent/agent_run_worker/services/runs/processing_store.py and llm_agent/contracts/services.
-- `S` is the state that an implementation works on.
pub mod Contract
pub mod InMemory
use python_agent_with_idp.Prelude.{ℕ, String, Bool, Option, List}
use python_agent_with_idp.Json.{Fields}
use python_agent_with_idp.Run.Status.{Uuid, RunStatus, RunEvent, RunRequest, ClaimedRun}
use python_agent_with_idp.Exec.{Exec, Done}

-- `create_run` gets the UUID that it generates.
pub record RunIntakeStore (S : Type 0) : Type 0 where
  pub create_run : Uuid → RunRequest → Exec S RunStatus
  pub get_status : Uuid → Exec S RunStatus
  pub mark_enqueued : Uuid → Exec S Done
  pub mark_cancelled : Uuid → Exec S Bool
  pub request_cancellation : Uuid → Exec S Bool
  pub get_events : Uuid → Option ℕ → Exec S (List RunEvent)

pub record RunProcessingStore (S : Type 0) : Type 0 where
  pub claim_run : String → Exec S (Option ClaimedRun)
  pub set_succeeded : Uuid → Fields → Exec S Done
  pub set_failed : Uuid → String → Exec S Done
  pub set_cancelled : Uuid → Exec S Done
  pub append_event : RunEvent → Exec S Done
  pub heartbeat : Uuid → String → Exec S RunStatus
  pub get_status : Uuid → Exec S RunStatus

-- The side of the queue that signals. What `wait` does is in SignalQueue.
pub record RunSignalQueue (S : Type 0) : Type 0 where
  pub notify : Exec S Done

pub record RunEventLog (S : Type 0) : Type 0 where
  pub init_run_stream : Uuid → Exec S Done
  pub append : Uuid → String → Fields → Exec S RunEvent
  pub list : Uuid → Option ℕ → Exec S (List RunEvent)
