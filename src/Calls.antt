-- ===== src/Calls.antt =====
-- Every way in which the API and the workers change the shared runtime, as data, so that a
-- history of the system is a list of calls. A caller may catch what a call raises and go on, so
-- that only the state is kept.
pub mod Invariant
pub mod Follows
pub mod Sound
use python_agent_with_idp.Prelude.{ℕ, String, Option, List, [], ◌∷◌}
use python_agent_with_idp.Json.{Fields}
use python_agent_with_idp.Run.Status.{Uuid, RunRequest}
use python_agent_with_idp.Exec.{Exec}
use python_agent_with_idp.Policy.{default_policy}
use python_agent_with_idp.Runtime
use python_agent_with_idp.Runtime.{InMemoryRuntime}
use python_agent_with_idp.Intake
use python_agent_with_idp.Processing
use python_agent_with_idp.Orchestrator

pub data Call : Type 0 where
  -- BackendRunOrchestrationService
  submit : Uuid → String → Call
  get_run cancel_run : Uuid → Call
  list_events : Uuid → Option ℕ → Call
  -- InMemoryRunIntakeStore
  create_run : Uuid → RunRequest → Call
  mark_enqueued mark_cancelled request_cancellation : Uuid → Call
  -- InMemoryRunProcessingStore
  claim_run : String → Call
  heartbeat : Uuid → String → Call
  set_failed : Uuid → String → Call
  set_succeeded : Uuid → Fields → Call
  set_cancelled get_status : Uuid → Call
  -- RunExecutionContext.emit_event
  emit_event : Uuid → String → Fields → Call

unfoldable pub perform : Call → InMemoryRuntime → InMemoryRuntime
perform (submit run_id prompt) s = (Orchestrator.create_run default_policy run_id prompt s).1
perform (get_run run_id) s = (Orchestrator.get_run run_id s).1
perform (cancel_run run_id) s = (Orchestrator.cancel_run run_id s).1
perform (list_events run_id after) s = (Orchestrator.get_events run_id after s).1
perform (create_run run_id request) s = (Intake.create_run run_id request s).1
perform (mark_enqueued run_id) s = (Intake.mark_enqueued default_policy run_id s).1
perform (mark_cancelled run_id) s = (Intake.mark_cancelled default_policy run_id s).1
perform (request_cancellation run_id) s = (Intake.request_cancellation run_id s).1
perform (claim_run worker_id) s = (Processing.claim_run default_policy worker_id s).1
perform (heartbeat run_id worker_id) s = (Processing.heartbeat run_id worker_id s).1
perform (set_failed run_id error) s = (Processing.set_failed default_policy run_id error s).1
perform (set_succeeded run_id result) s =
    (Processing.set_succeeded default_policy run_id result s).1
perform (set_cancelled run_id) s = (Processing.set_cancelled default_policy run_id s).1
perform (get_status run_id) s = (Processing.get_status run_id s).1
perform (emit_event run_id event_type payload) s =
    (Runtime.append_event run_id event_type payload s).1

unfoldable pub perform_all : List Call → InMemoryRuntime → InMemoryRuntime
perform_all [] s = s
perform_all (call ∷ calls) s = perform_all calls (perform call s)

-- `F` holds of the UUID that a call generates, if it generates one.
abbrev pub OnNew : (Uuid → Type 0) → Call → Type 0
OnNew F (submit new prompt) = F new
OnNew F (create_run new request) = F new
OnNew F _ = Unit
