-- ===== src/Services/InMemory/Kept.antt =====
-- The contracts of the protocols, for the in-memory stores.
use python_agent_with_idp.Prelude.{
  ◌≡◌, ◌≢◌, true, refl, ap, subst, ℕ, String, false, Option, none, some, inl, inr,
}
use python_agent_with_idp.Dict
use python_agent_with_idp.Dict.Laws.{contains_of_get, contains-eq-is_some}
use python_agent_with_idp.Run.Code.{RunStatusCode, running, succeeded, failed, cancelled}
use python_agent_with_idp.Run.Status.{Uuid, RunStatus}
use python_agent_with_idp.Error.{run_not_found, run_lease_lost}
use python_agent_with_idp.Exec.{returned, raised, ◌>>=◌}
use python_agent_with_idp.Policy.{default_policy}
use python_agent_with_idp.Policy.Allowed.{
  Allowed, succeed, fail, cancel_running, terminal_iff_no_arrow,
}
use python_agent_with_idp.Runtime.{InMemoryRuntime, notify, run_at_there, read_clock}
use python_agent_with_idp.Lifecycle.{WorkerStep}
use python_agent_with_idp.Transition.{moved}
use python_agent_with_idp.Conformance.Moves.{arrow_from}
use python_agent_with_idp.Calls.Sound.{IsSound, IsSound-performs, IsSound-IsPassive}
use python_agent_with_idp.Intake
use python_agent_with_idp.Calls.{perform, heartbeat, request_cancellation}
use python_agent_with_idp.Processing
use python_agent_with_idp.Claiming.Heartbeat.{renewed, heartbeat_owner, heartbeat_exact}
use python_agent_with_idp.SignalQueue
use python_agent_with_idp.Orchestrator.Cancellation.{or_false, request_ignored, request_taken}
use python_agent_with_idp.Services.Contract.{
  asked, settled_already, QueueContract, EventLogContract, Stores, IntakeContract,
  ProcessingContract,
}
use python_agent_with_idp.Services.InMemory.{
  find, in_memory_event_log, in_memory_signal_queue, in_memory_intake_store,
  in_memory_processing_store,
}
use python_agent_with_idp.Services.InMemory.Logged.{
  LogsInOrder, in_memory_event_log-EventLogContract,
}
use python_agent_with_idp.Services.InMemory.Writing.{
  Stores-put, closing, marked, mark_cancelled-Stores,
}

module _ (run_id : Uuid) (s : InMemoryRuntime) (st : RunStatus) (g : find s run_id ≡ some st) where
  mark_cancelled_already :
      ((to : RunStatusCode) → ¬ Allowed st.status to)
      → Intake.mark_cancelled default_policy run_id s ≡ (returned false, s)
  unfolding Intake.mark_cancelled ◌>>=◌
  mark_cancelled_already no_arrow =
      rw
        (
          contains_of_get s.internal_run_storage run_id g,
          run_at_there run_id s g,
          (terminal_iff_no_arrow st.status).1 no_arrow,
        )
        refl

  intake_status : Intake.get_status run_id s ≡ (returned st, s)
  unfolding Intake.get_status ◌>>=◌
  intake_status = rw (contains_of_get s.internal_run_storage run_id g, run_at_there run_id s g) refl

  processing_status : Processing.get_status run_id s ≡ (returned st, s)
  unfolding Processing.get_status ◌>>=◌
  processing_status =
      rw (contains_of_get s.internal_run_storage run_id g, run_at_there run_id s g) refl

module _ (run_id : Uuid) (s : InMemoryRuntime) (missing : find s run_id ≡ none) where
  not_stored : Dict.contains s.internal_run_storage run_id ≡ false
  not_stored = rw (contains-eq-is_some s.internal_run_storage run_id, missing) refl

  intake_status_unknown : Intake.get_status run_id s ≡ (raised (run_not_found run_id), s)
  unfolding Intake.get_status ◌>>=◌
  intake_status_unknown = rw not_stored refl

  intake_events_unknown :
      (after_sequence : Option ℕ)
      → Intake.get_events run_id after_sequence s ≡ (raised (run_not_found run_id), s)
  unfolding Intake.get_events ◌>>=◌
  intake_events_unknown after_sequence = rw not_stored refl

  processing_status_unknown : Processing.get_status run_id s ≡ (raised (run_not_found run_id), s)
  unfolding Processing.get_status ◌>>=◌
  processing_status_unknown = rw not_stored refl

module _ (run_id : Uuid) (worker_id : String) (s : InMemoryRuntime) (st : RunStatus)
    (sound : IsSound s) (g : find s run_id ≡ some st) (is_running : st.status ≡ running) where
  heartbeat_extends :
      st.claimed_worker ≡ some worker_id
      → Stores IsSound find
          (Processing.heartbeat run_id worker_id)
          s
          (renewed st (s.clock 0))
          run_id
          (renewed st (s.clock 0))
  unfolding perform read_clock
  heartbeat_extends owner =
      let ends = heartbeat_owner s run_id worker_id st sound g is_running owner in
      Stores-put _ s _ (renewed st (s.clock 0)) run_id (renewed st (s.clock 0)) ends refl
        (subst IsSound (ap (λ p. p.1) ends) (IsSound-performs (heartbeat run_id worker_id) s sound))

  heartbeat_loses :
      st.claimed_worker ≢ some worker_id
      → (Processing.heartbeat run_id worker_id s).0 ≡ raised (run_lease_lost run_id worker_id)
  heartbeat_loses other = elim (heartbeat_exact s run_id worker_id st sound g) [
    | inl idle ↦ absurd (idle.0 is_running)
    | inr (inl own) ↦ absurd (other own.1)
    | inr (inr lost) ↦ lost.2
  ]

request_cancellation-Stores :
    (run_id : Uuid) (s : InMemoryRuntime) (st : RunStatus)
    → IsSound s
    → find s run_id ≡ some st
    → settled_already st ≡ false
    → Stores IsSound find (Intake.request_cancellation run_id) s true run_id (asked st)
unfolding perform
request_cancellation-Stores run_id s st sound g live =
    let (replied, stored) =
      request_taken s run_id st sound g (or_false _ _ live).0 (or_false _ _ live).1 in
    Stores-put (Intake.request_cancellation run_id) s (Intake.request_cancellation run_id s).1 true
      run_id (asked st) (ap (λ reply. (reply, (Intake.request_cancellation run_id s).1)) replied)
      stored (IsSound-performs (request_cancellation run_id) s sound)

-- The event of the queue is set.
abbrev pub Woken : InMemoryRuntime → Type 0
Woken s = s.run_signal_queue.event ≡ true

-- The in-memory stores and queue keep the contracts of their protocols, with sound states as the
-- invariant. Intake: the status and the events of an unknown run raise RunNotFoundError, the
-- status of a known run is its record, `mark_cancelled` replies false without a change for a
-- terminal run and replies true and leaves the run CANCELLED where the status diagram has that
-- arrow, and `request_cancellation` notes the request unless the run is terminal or was asked
-- before. Processing: `get_status` likewise, the heartbeat of the owner of a running run renews
-- the claim, that of anybody else raises RunLeaseLostError, and `set_succeeded`, `set_failed` and
-- `set_cancelled` return for a running run and store the outcome. No write touches another run.
-- Queue: `notify` returns, changes no run and sets the event. Event log, in order: `append`
-- returns an event numbered one past the last and puts it at the end of its stream, other streams
-- read as before, the log stays in order, and `list` after number k leaves out the first k
-- events.
pub in_memory_stores_keep_contracts :
    IntakeContract IsSound find (in_memory_intake_store default_policy)
    × ProcessingContract IsSound find (in_memory_processing_store default_policy)
    × QueueContract IsSound find Woken in_memory_signal_queue
    × EventLogContract LogsInOrder in_memory_event_log
unfolding in_memory_intake_store in_memory_processing_store Processing.set_succeeded
    Processing.set_failed Processing.set_cancelled Processing.set_cancelled_locked moved notify
    SignalQueue.notify
in_memory_stores_keep_contracts = (
  record {
    unknown_status = λ run_id s. intake_status_unknown run_id s;
    known_status = λ run_id s st g. intake_status run_id s st g;
    unknown_events =
        λ run_id after_sequence s missing. intake_events_unknown run_id s missing after_sequence;
    cancelled_already = λ run_id s st g. mark_cancelled_already run_id s st g;
    cancels = λ run_id s st sound g arrow.
        (marked run_id s st sound g, refl, mark_cancelled-Stores run_id s st sound g arrow);
    asked_already = λ run_id s st sound g settled. request_ignored s run_id st sound g settled;
    asks = λ run_id s st sound g live. request_cancellation-Stores run_id s st sound g live;
  },
  record {
    unknown_status = λ run_id s. processing_status_unknown run_id s;
    known_status = λ run_id s st g. processing_status run_id s st g;
    extends = λ run_id worker_id s st sound g is_running owner.
        (_, heartbeat_extends run_id worker_id s st sound g is_running owner);
    loses = λ run_id worker_id s st sound g is_running.
        heartbeat_loses run_id worker_id s st sound g is_running;
    succeeds = λ run_id result s st sound g is_running.
        closing run_id s st sound g succeeded _ "run_succeeded" _ (arrow_from is_running succeed)
          (WorkerStep.succeed result is_running refl);
    fails = λ run_id error s st sound g is_running.
        closing run_id s st sound g failed _ "run_failed" _ (arrow_from is_running fail)
          (WorkerStep.fail error is_running refl);
    cancels = λ run_id s st sound g is_running.
        closing run_id s st sound g cancelled _ "cancelled" _ (arrow_from is_running cancel_running)
          (WorkerStep.cancel (arrow_from is_running cancel_running) refl);
  },
  record {
    returns = λ s. refl;
    keeps_runs = λ run_id s. refl;
    keeps_valid = λ s sound. IsSound-IsPassive.notifies.after s sound;
    wakes = λ s. refl;
  },
  in_memory_event_log-EventLogContract,
)
