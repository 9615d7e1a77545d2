-- ===== src/Services/InMemory.antt =====
-- The in-memory stores as implementations of the protocols:
-- llm_agent/local_runtime/run_store/intake.py and processing.py.
pub mod Writing
pub mod Logged
pub mod Kept
use python_agent_with_idp.Prelude.{Option}
use python_agent_with_idp.Dict
use python_agent_with_idp.Run.Status.{Uuid, RunStatus}
use python_agent_with_idp.Policy.{RunTransitionPolicy}
use python_agent_with_idp.Runtime.{InMemoryRuntime, notify, init_run_stream, append_event}
use python_agent_with_idp.EventLog
use python_agent_with_idp.Intake
use python_agent_with_idp.Processing
use python_agent_with_idp.Services.{RunEventLog, RunSignalQueue, RunIntakeStore, RunProcessingStore}

-- InMemoryRunIntakeStore and InMemoryRunProcessingStore, by their methods.
unfoldable pub in_memory_intake_store : RunTransitionPolicy → RunIntakeStore InMemoryRuntime
in_memory_intake_store policy = record {
  create_run = Intake.create_run;
  get_status = Intake.get_status;
  mark_enqueued = Intake.mark_enqueued policy;
  mark_cancelled = Intake.mark_cancelled policy;
  request_cancellation = Intake.request_cancellation;
  get_events = Intake.get_events;
}

unfoldable pub in_memory_processing_store : RunTransitionPolicy → RunProcessingStore InMemoryRuntime
in_memory_processing_store policy = record {
  claim_run = Processing.claim_run policy;
  set_succeeded = Processing.set_succeeded policy;
  set_failed = Processing.set_failed policy;
  set_cancelled = Processing.set_cancelled policy;
  append_event = Processing.append_event_ignored;
  heartbeat = Processing.heartbeat;
  get_status = Processing.get_status;
}

abbrev pub in_memory_signal_queue : RunSignalQueue InMemoryRuntime
in_memory_signal_queue = record { notify = notify }

-- InMemoryRunEventLog, with the clock of the runtime
abbrev pub in_memory_event_log : RunEventLog InMemoryRuntime
in_memory_event_log = record {
  init_run_stream = init_run_stream;
  append = append_event;
  list = λ run_id after_sequence s. (EventLog.list s.internal_event_logs run_id after_sequence, s);
}

abbrev pub find : InMemoryRuntime → Uuid → Option RunStatus
find s run_id = Dict.get s.internal_run_storage run_id
