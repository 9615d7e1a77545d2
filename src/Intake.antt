-- ===== src/Intake.antt =====
-- llm_agent/local_runtime/run_store/intake.py: `InMemoryRunIntakeStore`, the store of the API
-- side. Its lock is held over code that never suspends, so that a method is one step of the event
-- loop.
use python_agent_with_idp.Prelude.{ℕ, Bool, true, false, Option, none, some, List, if◌then◌else◌}
use python_agent_with_idp.Json.{end, field, str}
use python_agent_with_idp.Run.Code.{created, enqueued, cancelled, terminal_run_statuses, member}
use python_agent_with_idp.Run.Status.{Uuid, RunStatus, RunEvent, RunRequest}
use python_agent_with_idp.Error.{run_not_found}
use python_agent_with_idp.Exec.{Done, Exec, return, raise, lift, gets, ◌>>=◌, ◌>>◌}
use python_agent_with_idp.Policy.{RunTransitionPolicy, validate}
use python_agent_with_idp.EventLog
use python_agent_with_idp.Runtime.{
  InMemoryRuntime, run_at, has_run, set_run, init_run_stream, append_event,
}

-- The record of a new run.
abbrev pub new_run : Uuid → RunStatus
new_run run_id = record {
  id = run_id;
  status = created;
  result = none;
  error = none;
  claimed_worker = none;
  claim_expiration_unix_ts = none;
  retry_count = some 0;
  cancel_requested = false;
}

-- `run_id` is what `uuid.uuid4()` returns.
unfoldable pub create_run : Uuid → RunRequest → Exec InMemoryRuntime RunStatus
create_run run_id run_request = do
  set_run run_id (new_run run_id)
  init_run_stream run_id
  append_event run_id "created" (field "user_id" (str run_request.user_id) end)
  return (new_run run_id)

-- `if run_id not in self._runs: raise RunNotFoundError(...)`
unfoldable pub require_run : Uuid → Exec InMemoryRuntime Done
require_run run_id = do
  found ← gets (has_run run_id)
  if found then return tt else raise (run_not_found run_id)

unfoldable pub get_status : Uuid → Exec InMemoryRuntime RunStatus
unfolding require_run
get_status run_id = do require_run run_id; run_at run_id

-- The new record takes the defaults for the worker, the claim, the retries and the request to cancel.
unfoldable pub mark_enqueued : RunTransitionPolicy → Uuid → Exec InMemoryRuntime Done
mark_enqueued policy run_id = do
  run_status ← run_at run_id
  lift (validate policy run_status enqueued)
  set_run run_id (record {
    id = run_status.id;
    status = enqueued;
    result = run_status.result;
    error = run_status.error;
    claimed_worker = none;
    claim_expiration_unix_ts = none;
    retry_count = some 0;
    cancel_requested = false;
  })
  append_event run_id "enqueued" end
  return tt

unfoldable pub mark_cancelled : RunTransitionPolicy → Uuid → Exec InMemoryRuntime Bool
unfolding require_run
mark_cancelled policy run_id = do
  require_run run_id
  run_status ← run_at run_id
  if member run_status.status terminal_run_statuses then return false else do
    lift (validate policy run_status cancelled)
    set_run run_id (record {
      id = run_status.id;
      status = cancelled;
      result = run_status.result;
      error = run_status.error;
      claimed_worker = none;
      claim_expiration_unix_ts = none;
      retry_count = some 0;
      cancel_requested = false;
    })
    append_event run_id "cancelled" end
    return true

unfoldable pub request_cancellation : Uuid → Exec InMemoryRuntime Bool
unfolding require_run
request_cancellation run_id = do
  require_run run_id
  run_status ← run_at run_id
  if member run_status.status terminal_run_statuses
      then return false
      else if run_status.cancel_requested
      then return false
      else do
        set_run run_id (record {
          id = run_status.id;
          status = run_status.status;
          result = run_status.result;
          error = run_status.error;
          claimed_worker = run_status.claimed_worker;
          claim_expiration_unix_ts = run_status.claim_expiration_unix_ts;
          retry_count = run_status.retry_count;
          cancel_requested = true;
        })
        append_event run_id "cancel requested" end
        return true

unfoldable pub get_events : Uuid → Option ℕ → Exec InMemoryRuntime (List RunEvent)
unfolding require_run
get_events run_id after_sequence = do
  require_run run_id
  log ← gets (λ s. s.internal_event_logs)
  lift (EventLog.list log run_id after_sequence)
