-- ===== src/Calls/Sound.antt =====
-- Soundness, an invariant of the runtime between any two calls.
use python_agent_with_idp.Prelude.{
  some_eq, is_some, ◌≡◌, refl, subst, true, some, List, [], ◌∷◌, All, ==→eq, Bool-cases, inl, inr,
  ◌==◌, ◌||◌, arith, String,
}
use python_agent_with_idp.Dict
use python_agent_with_idp.Dict.{Dict}
use python_agent_with_idp.Dict.Laws.{get-put, contains-put, contains_of_get}
use python_agent_with_idp.Json.{Fields}
use python_agent_with_idp.Run.Code.{running}
use python_agent_with_idp.Run.Status.{Uuid, RunStatus, RunRequest}
use python_agent_with_idp.Exec.Leads.{Leads, Keeps, keeps_rules}
use python_agent_with_idp.Exec.{returned, Exec, ◌>>=◌, ◌>>◌}
use python_agent_with_idp.Runtime
use python_agent_with_idp.Runtime.{InMemoryRuntime, Clock, create_default_in_memory_runtime}
use python_agent_with_idp.EventLog
use python_agent_with_idp.EventLog.IsOrdered.{
  IsOrdered, contains-append, contains-init_run_stream, append-IsOrdered, init_run_stream-IsOrdered,
}
use python_agent_with_idp.Writes.{write, Leads-set_run_then, IsPassive}
use python_agent_with_idp.Lifecycle.{
  WorkerStep, claim, renew, time_out, retry, requeue, succeed, fail, cancel, IntakeStep, enqueue,
  drop, ask,
}
use python_agent_with_idp.Intake
use python_agent_with_idp.Intake.{new_run}
use python_agent_with_idp.Calls.{Call, submit, OnNew, perform, perform_all}
use python_agent_with_idp.Calls.Invariant.{perform_keeps, perform_all_keeps}

-- A stored run stands under its own UUID, counts its retries, and has an owner and an expiration
-- while it is running.
pub record IsRunSound (run_id : Uuid) (st : RunStatus) : Type 0 where
  pub own_id : st.id ≡ run_id
  pub counted : is_some st.retry_count ≡ true
  pub owned : st.status ≡ running → is_some st.claimed_worker ≡ true
  pub leased : st.status ≡ running → is_some st.claim_expiration_unix_ts ≡ true

-- Every stored run is sound and has a stream of events, and the streams are numbered in order.
pub record IsSound (s : InMemoryRuntime) : Type 0 where
  pub runs :
      (run_id : Uuid) (st : RunStatus)
      → Dict.get s.internal_run_storage run_id ≡ some st
      → IsRunSound run_id st
  pub streams :
      (run_id : Uuid)
      → Dict.contains s.internal_run_storage run_id ≡ true
      → Dict.contains s.internal_event_logs.internal_run_events run_id ≡ true
  pub ordered : IsOrdered s.internal_event_logs

worker_step-IsRunSound :
    {st st' : RunStatus} (run_id : Uuid)
    → WorkerStep st st'
    → IsRunSound run_id st
    → IsRunSound run_id st'
worker_step-IsRunSound run_id (claim w u p c e) h = rw e (ground arith)
worker_step-IsRunSound run_id (renew w u p o e) h = rw e (ground arith)
worker_step-IsRunSound run_id (time_out w p e) h = rw e (ground arith)
worker_step-IsRunSound run_id (retry w n p c e) h = rw e (ground arith)
worker_step-IsRunSound run_id (requeue w p e) h = rw e (ground arith)
worker_step-IsRunSound run_id (succeed r p e) h = rw e (ground arith)
worker_step-IsRunSound run_id (fail m p e) h = rw e (ground arith)
worker_step-IsRunSound run_id (cancel a e) h = rw e (ground arith)

intake_step-IsRunSound :
    {st st' : RunStatus} (run_id : Uuid)
    → IntakeStep st st'
    → IsRunSound run_id st
    → IsRunSound run_id st'
intake_step-IsRunSound run_id (enqueue a e) h = rw e (ground arith)
intake_step-IsRunSound run_id (drop a e) h = rw e (ground arith)
intake_step-IsRunSound run_id (ask n c e) h = rw e (ground arith)

-- All of soundness but the stream of `run_id`.
record IsNearlySound (run_id : Uuid) (s : InMemoryRuntime) : Type 0 where
  runs : (j : Uuid) (st : RunStatus) → Dict.get s.internal_run_storage j ≡ some st → IsRunSound j st
  streams :
      (j : Uuid)
      → Dict.contains s.internal_run_storage j ≡ true
      → ((run_id == j) || Dict.contains s.internal_event_logs.internal_run_events j) ≡ true
  ordered : IsOrdered s.internal_event_logs

new_record-IsRunSound :
    (d : Dict RunStatus) (run_id j : Uuid) (new st : RunStatus)
    → ((i : Uuid) (cur : RunStatus) → Dict.get d i ≡ some cur → IsRunSound i cur)
    → IsRunSound run_id new
    → Dict.get (Dict.put d run_id new) j ≡ some st
    → IsRunSound j st
new_record-IsRunSound d run_id j new st h n g = elim (Bool-cases (run_id == j)) [
  | inl same ↦
      let e : new ≡ st = some_eq (rw (get-put, same) at g) in
      subst (IsRunSound j) e (subst (λ i. IsRunSound i new) (==→eq run_id j same) n)
  | inr other ↦ h j st (rw (get-put, other) at g)
]

write-IsNearlySound :
    (s : InMemoryRuntime) (run_id : Uuid) (new : RunStatus)
    → IsSound s
    → IsRunSound run_id new
    → IsNearlySound run_id (write s run_id new)
write-IsNearlySound s run_id new h n = record {
  runs = λ j st. new_record-IsRunSound s.internal_run_storage run_id j new st h.runs n;
  streams = λ j there. elim (Bool-cases (run_id == j)) [
    | inl same ↦ rw same
    | inr other ↦ rw other (h.streams j (rw (contains-put, other) at there))
  ];
  ordered = h.ordered;
}

pub write-IsSound :
    (s : InMemoryRuntime) (run_id : Uuid) (cur new : RunStatus)
    → IsSound s
    → Dict.get s.internal_run_storage run_id ≡ some cur
    → IsRunSound run_id new
    → IsSound (write s run_id new)
write-IsSound s run_id cur new h g n =
    let near = write-IsNearlySound s run_id new h n in
    record {
      runs = near.runs;
      streams = λ j there. elim (Bool-cases (run_id == j)) [
        | inl same ↦
            h.streams j
              (rw (← ==→eq run_id j same) (contains_of_get s.internal_run_storage run_id g))
        | inr other ↦ h.streams j (rw (contains-put, other) at there)
      ];
      ordered = near.ordered;
    }

pub append_event-IsSound :
    (run_id : Uuid) (event_type : String) (payload : Fields)
    → Keeps IsSound (Runtime.append_event run_id event_type payload)
unfolding Runtime.append_event
append_event-IsSound run_id event_type payload = record {
  after = λ s h. record {
    runs = h.runs;
    streams = λ j there.
        contains-append run_id event_type payload (s.clock 0) s.internal_event_logs j
          (h.streams j there);
    ordered =
        append-IsOrdered run_id event_type payload (s.clock 0) s.internal_event_logs h.ordered;
  };
}

init_run_stream-IsSound :
    (run_id : Uuid) → Leads (IsNearlySound run_id) (Runtime.init_run_stream run_id) IsSound
unfolding Runtime.init_run_stream
init_run_stream-IsSound run_id = record {
  after = λ s h. record {
    runs = h.runs;
    streams =
        λ j there. contains-init_run_stream run_id s.internal_event_logs j (h.streams j there);
    ordered = init_run_stream-IsOrdered run_id s.internal_event_logs h.ordered;
  };
}

init_run_stream_returns :
    (run_id : Uuid) (s : InMemoryRuntime) → (Runtime.init_run_stream run_id s).0 ≡ returned tt
unfolding Runtime.init_run_stream EventLog.init_run_stream
init_run_stream_returns run_id s = ground arith

init_run_stream_then :
    {A : Type 0} (run_id : Uuid) (m : Exec InMemoryRuntime A)
    → Keeps IsSound m
    → Leads (IsNearlySound run_id) (Runtime.init_run_stream run_id >> m) IsSound
unfolding ◌>>=◌
init_run_stream_then run_id m k = record {
  after = λ s h.
      rw (init_run_stream_returns run_id s)
        (k.after _ ((init_run_stream-IsSound run_id).after s h));
}

pub IsSound-IsPassive : IsPassive IsSound
unfolding Runtime.read_clock Runtime.notify
IsSound-IsPassive = record {
  appends = append_event-IsSound;
  reads = record {
    after = λ s h. record { runs = h.runs; streams = h.streams; ordered = h.ordered };
  };
  notifies = record {
    after = λ s h. record { runs = h.runs; streams = h.streams; ordered = h.ordered };
  };
}

new_run-IsRunSound : (run_id : Uuid) → IsRunSound run_id (new_run run_id)
new_run-IsRunSound run_id = ground arith

create_run-IsSound :
    (run_id : Uuid) (request : RunRequest) → Keeps IsSound (Intake.create_run run_id request)
unfolding Intake.create_run
create_run-IsSound run_id request =
    Leads-set_run_then IsSound (IsNearlySound run_id) IsSound run_id (new_run run_id) _
      (λ s h. write-IsNearlySound s run_id (new_run run_id) h (new_run-IsRunSound run_id))
      (init_run_stream_then run_id _ (search (keeps_rules, append_event-IsSound)))

pub worker-IsSound :
    (s : InMemoryRuntime) (run_id : Uuid) (cur new : RunStatus)
    → IsSound s
    → Dict.get s.internal_run_storage run_id ≡ some cur
    → WorkerStep cur new
    → IsSound (write s run_id new)
worker-IsSound s run_id cur new h g step =
    write-IsSound s run_id cur new h g (worker_step-IsRunSound run_id step (h.runs run_id cur g))

intake-IsSound :
    (s : InMemoryRuntime) (run_id : Uuid) (cur new : RunStatus)
    → IsSound s
    → Dict.get s.internal_run_storage run_id ≡ some cur
    → IntakeStep cur new
    → IsSound (write s run_id new)
intake-IsSound s run_id cur new h g step =
    write-IsSound s run_id cur new h g (intake_step-IsRunSound run_id step (h.runs run_id cur g))

pub any_new : (call : Call) → OnNew (λ new. Unit {0}) call
any_new (submit run_id prompt) = tt
any_new _ = tt

pub every_call : (calls : List Call) → All (OnNew (λ new. Unit {0})) calls
every_call [] = tt
every_call (call ∷ calls) = (any_new call, every_call calls)

-- A sound runtime is sound after every history of calls, those that raise included: every stored
-- run stands under its own UUID, counts its retries, has an owner and an expiration while it is
-- running, and has a stream of events, and the events of each stream are numbered from 1 without
-- gaps.
pub perform_all-IsSound :
    (calls : List Call) (s : InMemoryRuntime) → IsSound s → IsSound (perform_all calls s)
perform_all-IsSound calls s h =
    perform_all_keeps IsSound (λ new. Unit) IsSound-IsPassive worker-IsSound intake-IsSound
      (λ run_id request _. create_run-IsSound run_id request) calls s (every_call calls) h

pub IsSound-performs : (call : Call) (s : InMemoryRuntime) → IsSound s → IsSound (perform call s)
IsSound-performs call s h =
    perform_keeps IsSound (λ new. Unit) IsSound-IsPassive worker-IsSound intake-IsSound
      (λ run_id request _. create_run-IsSound run_id request) call s (any_new call) h

-- The runtime that `create_default_in_memory_runtime` makes is sound.
pub create_default_in_memory_runtime-IsSound :
    (clock : Clock) → IsSound (create_default_in_memory_runtime clock)
unfolding create_default_in_memory_runtime Dict.get Dict.contains
create_default_in_memory_runtime-IsSound clock = record {
  runs = λ run_id st g. cc;
  streams = λ run_id c. cc;
  ordered = record { stream = λ run_id. refl };
}
