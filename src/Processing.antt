-- ===== src/Processing.antt =====
-- llm_agent/local_runtime/run_store/processing.py: `InMemoryRunProcessingStore`, the store of the
-- workers. Its lock is held over code that never suspends, so that a method is one step of the
-- event loop.
use python_agent_with_idp.Prelude.{
  ℕ, ◌+◌, String, Bool, false, not, Option, none, some, List, [], ◌∷◌, str_eq, if◌then◌else◌,
}
use python_agent_with_idp.Dict
use python_agent_with_idp.Json.{Fields, end, field, str}
use python_agent_with_idp.Run.Code.{
  enqueued, running, succeeded, failed, cancelled, timed_out, retrying, same,
}
use python_agent_with_idp.Run.Status.{ClaimType, Uuid, RunStatus, RunEvent, ClaimedRun}
use python_agent_with_idp.Error.{run_not_found, run_lease_lost, none_plus_int}
use python_agent_with_idp.Exec.{
  Outcome, Done, returned, raised, Exec, return, raise, lift, gets, ◌>>=◌, ◌>>◌,
}
use python_agent_with_idp.Policy.{RunTransitionPolicy}
use python_agent_with_idp.Request.{TransitionRequestParams, given, no_params}
use python_agent_with_idp.Runtime.{InMemoryRuntime, run_at, has_run, set_run, append_event}
use python_agent_with_idp.Transition.{has_claim_expired, get_new_expiration_ts, transition_locked}

-- retry_count + 1
unfoldable pub plus_one : Option ℕ → Outcome (Option ℕ)
plus_one none = raised none_plus_int
plus_one (some n) = returned (some (n + 1))

unfoldable pub recover_expired_runs :
    RunTransitionPolicy → Uuid → RunStatus → String → Exec InMemoryRuntime Done
recover_expired_runs policy run_id run_status worker_id = do
  let transition_request : TransitionRequestParams = record no_params {
    worker_id = given (some worker_id);
  }
  transition_locked policy run_id timed_out (some transition_request)
  retries ← lift (plus_one run_status.retry_count)
  let updated_retry : TransitionRequestParams = record no_params {
    worker_id = given (some worker_id);
    retry_count = given retries;
  }
  transition_locked policy run_id retrying (some updated_retry)
  transition_locked policy run_id enqueued (some transition_request)

unfoldable pub set_cancelled_locked : RunTransitionPolicy → Uuid → Exec InMemoryRuntime Done
set_cancelled_locked policy run_id = do
  transition_locked policy run_id cancelled (some no_params)
  append_event run_id "cancelled" end
  return tt

-- The body of the first loop of `claim_run`.
unfoldable pub recover_if_expired :
    RunTransitionPolicy → String → Uuid → RunStatus → Exec InMemoryRuntime Done
recover_if_expired policy worker_id run_id run_status =
    if not (same run_status.status running) then return tt else do
      claim_expired ← has_claim_expired run_status
      if not claim_expired then return tt else do
        append_event run_id "claim_expired" end
        recover_expired_runs policy run_id run_status worker_id

-- `for run_id, run_status in self._runs.items()`: no step of either loop adds or removes a key, and
-- the value is read when the loop comes to it.
unfoldable pub recover_loop : RunTransitionPolicy → String → List Uuid → Exec InMemoryRuntime Done
recover_loop policy worker_id [] = return tt
recover_loop policy worker_id (run_id ∷ run_ids) = do
  run_status ← run_at run_id
  recover_if_expired policy worker_id run_id run_status
  recover_loop policy worker_id run_ids

-- The claim of an enqueued run, in the second loop.
unfoldable pub claim_enqueued :
    RunTransitionPolicy → String → Uuid → Exec InMemoryRuntime ClaimedRun
claim_enqueued policy worker_id run_id = do
  expiration_unix_ts ← get_new_expiration_ts
  let transition_request : TransitionRequestParams = record no_params {
    worker_id = given (some worker_id);
    expiration_unix_ts = given (some expiration_unix_ts);
  }
  transition_locked policy run_id running (some transition_request)
  append_event run_id "claimed" (field "worker" (str worker_id) end)
  run_status ← run_at run_id
  return (record { id = run_id; claim_type = ClaimType.enqueued; run_status = run_status })

unfoldable pub claim_loop :
    RunTransitionPolicy → String → List Uuid → Exec InMemoryRuntime (Option ClaimedRun)
claim_loop policy worker_id [] = return none
claim_loop policy worker_id (run_id ∷ run_ids) = do
  run_status ← run_at run_id
  let rest = claim_loop policy worker_id run_ids
  if not (same run_status.status enqueued)
      then rest
      else if run_status.cancel_requested
      then (do set_cancelled_locked policy run_id; rest)
      else do claimed ← claim_enqueued policy worker_id run_id; return (some claimed)

unfoldable pub claim_run : RunTransitionPolicy → String → Exec InMemoryRuntime (Option ClaimedRun)
claim_run policy worker_id = do
  expirable ← gets (λ s. Dict.keys s.internal_run_storage)
  recover_loop policy worker_id expirable
  run_ids ← gets (λ s. Dict.keys s.internal_run_storage)
  claim_loop policy worker_id run_ids

-- RunProcessingStore.append_event has an empty body here.
abbrev pub append_event_ignored : RunEvent → Exec InMemoryRuntime Done
append_event_ignored evt = return tt

-- run_status.claimed_worker == worker_id
unfoldable pub is_owner : Option String → String → Bool
is_owner none worker_id = false
is_owner (some owner) worker_id = str_eq owner worker_id

-- The branch of `heartbeat` for a run that another worker has claimed.
unfoldable pub lose_claim : Uuid → String → Exec InMemoryRuntime RunStatus
lose_claim run_id worker_id = do
  append_event run_id "claim_lost" (field "worker" (str worker_id) end)
  raise (run_lease_lost run_id worker_id)

-- The branch for the owner.
unfoldable pub renew_claim : Uuid → String → RunStatus → Exec InMemoryRuntime RunStatus
renew_claim run_id worker_id run_status = do
  updated_expiration_unix_ts ← get_new_expiration_ts
  let updated_run_status : RunStatus = record {
    id = run_status.id;
    status = running;
    result = run_status.result;
    error = run_status.error;
    claimed_worker = some worker_id;
    claim_expiration_unix_ts = some updated_expiration_unix_ts;
    retry_count = run_status.retry_count;
    cancel_requested = run_status.cancel_requested;
  }
  set_run run_id updated_run_status
  return updated_run_status

unfoldable pub heartbeat : Uuid → String → Exec InMemoryRuntime RunStatus
unfolding lose_claim renew_claim
heartbeat run_id worker_id = do
  run_status ← run_at run_id
  if same run_status.status cancelled
      then return run_status
      else if not (same run_status.status running)
      then return run_status
      else if not (is_owner run_status.claimed_worker worker_id)
      then lose_claim run_id worker_id
      else renew_claim run_id worker_id run_status

unfoldable pub set_failed : RunTransitionPolicy → Uuid → String → Exec InMemoryRuntime Done
set_failed policy run_id error = do
  let transition_request : TransitionRequestParams = record no_params { error = given (some error) }
  transition_locked policy run_id failed (some transition_request)
  append_event run_id "run_failed" (field "error" (str error) end)
  return tt

unfoldable pub set_succeeded : RunTransitionPolicy → Uuid → Fields → Exec InMemoryRuntime Done
set_succeeded policy run_id result = do
  let transition_request : TransitionRequestParams = record no_params {
    result = given (some result);
  }
  transition_locked policy run_id succeeded (some transition_request)
  append_event run_id "run_succeeded" (field "result" (str "done") end)
  return tt

unfoldable pub get_status : Uuid → Exec InMemoryRuntime RunStatus
get_status run_id = do
  found ← gets (has_run run_id)
  if found then run_at run_id else raise (run_not_found run_id)

unfoldable pub set_cancelled : RunTransitionPolicy → Uuid → Exec InMemoryRuntime Done
unfolding set_cancelled_locked
set_cancelled policy run_id = set_cancelled_locked policy run_id
