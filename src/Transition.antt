-- ===== src/Transition.antt =====
-- The parts of llm_agent/local_runtime/run_store/processing.py that read the clock and write a
-- run.
pub mod Exact
use python_agent_with_idp.Prelude.{
  ℕ, ◌+◌, String, Bool, true, false, Option, none, some, ltb, ◌==◌, if◌then◌else◌,
}
use python_agent_with_idp.Run.Code.{RunStatusCode}
use python_agent_with_idp.Run.Status.{Uuid, Timestamp, RunStatus}
use python_agent_with_idp.Exec.{Outcome, Done, Exec, return, lift, ◌>>=◌, ◌>>◌}
use python_agent_with_idp.Policy.{RunTransitionPolicy, validate}
use python_agent_with_idp.Request.{TransitionRequestParams, no_params, get_value_or_fallback}
use python_agent_with_idp.Runtime.{InMemoryRuntime, read_clock, run_at, set_run}

-- 30 seconds
abbrev pub lease : ℕ
lease = 30_000_000

-- An expiration of 0 counts as none, and the clock is read only if there is one.
unfoldable pub expired_at : Option Timestamp → Exec InMemoryRuntime Bool
expired_at none = return false
expired_at (some expiration) =
    if expiration == 0
    then return false
    else do current_unix_ts ← read_clock; return (ltb expiration current_unix_ts)

unfoldable pub has_claim_expired : RunStatus → Exec InMemoryRuntime Bool
unfolding expired_at
has_claim_expired run_status = expired_at run_status.claim_expiration_unix_ts

unfoldable pub get_new_expiration_ts : Exec InMemoryRuntime Timestamp
get_new_expiration_ts = do now ← read_clock; return (now + lease)

-- `if not transition_request: transition_request = TransitionRequestParams()`
abbrev pub or_no_params : Option TransitionRequestParams → TransitionRequestParams
or_no_params none = no_params
or_no_params (some request) = request

-- The record that a transition writes.
unfoldable pub moved : RunStatus → RunStatusCode → TransitionRequestParams → RunStatus
unfolding get_value_or_fallback
moved run_status target_status request = record {
  id = run_status.id;
  status = target_status;
  result = get_value_or_fallback request.result run_status.result;
  error = get_value_or_fallback request.error run_status.error;
  claimed_worker = get_value_or_fallback request.worker_id run_status.claimed_worker;
  claim_expiration_unix_ts =
      get_value_or_fallback request.expiration_unix_ts run_status.claim_expiration_unix_ts;
  retry_count = get_value_or_fallback request.retry_count run_status.retry_count;
  cancel_requested = run_status.cancel_requested;
}

unfoldable pub transition_locked :
    RunTransitionPolicy
    → Uuid
    → RunStatusCode
    → Option TransitionRequestParams
    → Exec InMemoryRuntime Done
transition_locked policy run_id target_status transition_request = do
  run_status ← run_at run_id
  lift (validate policy run_status target_status)
  set_run run_id (moved run_status target_status (or_no_params transition_request))
