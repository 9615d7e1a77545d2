-- ===== src/Lifecycle.antt =====
-- What may happen to one run: a specification of the two stores that looks at a single record.
-- Each constructor says when a step may be taken and what the record is afterwards.
pub mod Terminal
pub mod Asked
use python_agent_with_idp.Prelude.{ℕ, ◌+◌, ◌≡◌, String, Bool, true, false, Option, none, some}
use python_agent_with_idp.Json.{Fields}
use python_agent_with_idp.Run.Code.{
  RunStatusCode, enqueued, running, succeeded, failed, cancelled, timed_out, retrying,
  terminal_run_statuses, member,
}
use python_agent_with_idp.Run.Status.{Timestamp, RunStatus}
use python_agent_with_idp.Policy.Allowed.{Allowed}

-- The steps of `InMemoryRunProcessingStore`.
pub data WorkerStep : RunStatus → RunStatus → Type 0 where
  -- A worker takes an enqueued run that nobody asked to cancel.
  claim :
      {st st' : RunStatus} (worker : String) (until : Timestamp)
      → st.status ≡ enqueued
      → st.cancel_requested ≡ false
      → st' ≡ record st {
        status = running;
        claimed_worker = some worker;
        claim_expiration_unix_ts = some until;
      }
      → WorkerStep st st'
  -- The owner of a running run extends its claim.
  renew :
      {st st' : RunStatus} (worker : String) (until : Timestamp)
      → st.status ≡ running
      → st.claimed_worker ≡ some worker
      → st' ≡ record st { claim_expiration_unix_ts = some until }
      → WorkerStep st st'
  -- The three steps by which a worker brings an abandoned run back.
  time_out :
      {st st' : RunStatus} (worker : String)
      → st.status ≡ running
      → st' ≡ record st { status = timed_out; claimed_worker = some worker }
      → WorkerStep st st'
  retry :
      {st st' : RunStatus} (worker : String) (n : ℕ)
      → st.status ≡ timed_out
      → st.retry_count ≡ some n
      → st'
        ≡ record st { status = retrying; claimed_worker = some worker; retry_count = some (n + 1) }
      → WorkerStep st st'
  requeue :
      {st st' : RunStatus} (worker : String)
      → st.status ≡ retrying
      → st' ≡ record st { status = enqueued; claimed_worker = some worker }
      → WorkerStep st st'
  succeed :
      {st st' : RunStatus} (outcome : Fields)
      → st.status ≡ running
      → st' ≡ record st { status = succeeded; result = some outcome }
      → WorkerStep st st'
  fail :
      {st st' : RunStatus} (message : String)
      → st.status ≡ running
      → st' ≡ record st { status = failed; error = some message }
      → WorkerStep st st'
  cancel :
      {st st' : RunStatus}
      → Allowed st.status cancelled
      → st' ≡ record st { status = cancelled }
      → WorkerStep st st'

-- The record that the intake store writes when it enqueues or cancels a run: it forgets the worker,
-- the claim, the retries and a request to cancel.
abbrev pub fresh : RunStatus → RunStatusCode → RunStatus
fresh st code = record {
  id = st.id;
  status = code;
  result = st.result;
  error = st.error;
  claimed_worker = none;
  claim_expiration_unix_ts = none;
  retry_count = some 0;
  cancel_requested = false;
}

-- The steps of `InMemoryRunIntakeStore`.
pub data IntakeStep : RunStatus → RunStatus → Type 0 where
  enqueue :
      {st st' : RunStatus}
      → Allowed st.status enqueued
      → st' ≡ fresh st enqueued
      → IntakeStep st st'
  drop :
      {st st' : RunStatus}
      → Allowed st.status cancelled
      → st' ≡ fresh st cancelled
      → IntakeStep st st'
  ask :
      {st st' : RunStatus}
      → member st.status terminal_run_statuses ≡ false
      → st.cancel_requested ≡ false
      → st' ≡ record st { cancel_requested = true }
      → IntakeStep st st'

infix 40 ◌⟶◌ ◌⟶*◌
pub data ◌⟶◌ : RunStatus → RunStatus → Type 0 where
  by_worker : {st st' : RunStatus} → WorkerStep st st' → st ⟶ st'
  by_intake : {st st' : RunStatus} → IntakeStep st st' → st ⟶ st'

pub data ◌⟶*◌ (st : RunStatus) : RunStatus → Type 0 where
  here : st ⟶* st
  next : {u v : RunStatus} → st ⟶* u → u ⟶ v → st ⟶* v
