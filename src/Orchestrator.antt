-- ===== src/Orchestrator.antt =====
-- llm_agent/llm_agent/services/agent/orchestrator.py: `BackendRunOrchestrationService`. No
-- statement of a method suspends, so that a method is one step of the event loop.
pub mod Cancellation
pub mod Submission
pub mod AnyStore
use python_agent_with_idp.Prelude.{ℕ, String, Bool, Option, List, [], if◌then◌else◌}
use python_agent_with_idp.Run.Status.{Uuid, RunStatus, RunEvent, RunRequest}
use python_agent_with_idp.Exec.{Exec, return, ◌>>=◌, ◌>>◌}
use python_agent_with_idp.Policy.{RunTransitionPolicy, default_policy}
use python_agent_with_idp.Runtime.{InMemoryRuntime}
use python_agent_with_idp.Services.{RunIntakeStore, RunSignalQueue}
use python_agent_with_idp.Services.InMemory.{in_memory_intake_store, in_memory_signal_queue}

abbrev pub request_for : String → RunRequest
request_for prompt = record {
  prompt = prompt;
  history = [];
  user_id = "hardcoded_user_later_take_it_from_context";
}

-- The service over any store and queue. `run_id` is the UUID that the store generates.
module _ {S : Type 0} (run_store : RunIntakeStore S) (run_signal_queue : RunSignalQueue S) where
  unfoldable pub submit_run : Uuid → String → Exec S RunStatus
  submit_run run_id prompt = do
    created_run ← run_store.create_run run_id (request_for prompt)
    run_store.mark_enqueued created_run.id
    run_signal_queue.notify
    return created_run

  unfoldable pub read_run : Uuid → Exec S RunStatus
  read_run run_id = do run_status ← run_store.get_status run_id; return run_status

  unfoldable pub request_cancel : Uuid → Exec S Bool
  request_cancel run_id = do
    is_cancelled ← run_store.request_cancellation run_id
    if is_cancelled then (do run_signal_queue.notify; return is_cancelled) else return is_cancelled

  unfoldable pub read_events : Uuid → Option ℕ → Exec S (List RunEvent)
  read_events run_id after_sequence = run_store.get_events run_id after_sequence

-- The service over the in-memory store and queue.
unfoldable pub create_run : RunTransitionPolicy → Uuid → String → Exec InMemoryRuntime RunStatus
unfolding submit_run in_memory_intake_store
create_run policy = submit_run (in_memory_intake_store policy) in_memory_signal_queue

unfoldable pub get_run : Uuid → Exec InMemoryRuntime RunStatus
unfolding read_run in_memory_intake_store
get_run = read_run (in_memory_intake_store default_policy) in_memory_signal_queue

unfoldable pub cancel_run : Uuid → Exec InMemoryRuntime Bool
unfolding request_cancel in_memory_intake_store
cancel_run = request_cancel (in_memory_intake_store default_policy) in_memory_signal_queue

unfoldable pub get_events : Uuid → Option ℕ → Exec InMemoryRuntime (List RunEvent)
unfolding read_events in_memory_intake_store
get_events = read_events (in_memory_intake_store default_policy) in_memory_signal_queue
