-- ===== src/Services/Contract.antt =====
-- What the protocols document, of any implementation: `IsValid` is its invariant, and `find` what it
-- stores for a run.
use python_agent_with_idp.Prelude.{
  ℕ, ◌≡◌, ◌≢◌, ◌||◌, ◌+◌, ◌++◌, [], ◌∷◌, List, length, drop, Bool, String, true, false, Option,
  none, some,
}
use python_agent_with_idp.Json.{Fields}
use python_agent_with_idp.Run.Code.{
  RunStatusCode, running, succeeded, failed, cancelled, member, terminal_run_statuses,
}
use python_agent_with_idp.Run.Status.{Uuid, Timestamp, RunStatus, RunEvent}
use python_agent_with_idp.Error.{run_not_found, run_lease_lost}
use python_agent_with_idp.Exec.{returned, raised, Exec}
use python_agent_with_idp.Policy.Allowed.{Allowed}
use python_agent_with_idp.Services.{RunEventLog, RunSignalQueue, RunIntakeStore, RunProcessingStore}

-- The record after a request to cancel.
abbrev pub asked : RunStatus → RunStatus
asked st = record st { cancel_requested = true }

-- There is nothing to ask for any more.
abbrev pub settled_already : RunStatus → Bool
settled_already st = member st.status terminal_run_statuses || st.cancel_requested

module _ {S : Type 0} (IsValid : S → Type 0) (find : S → Uuid → Option RunStatus) where
  -- The method returns this, and stores this record for the run, and leaves the other runs.
  pub record Stores {A : Type 0} (m : Exec S A) (s : S) (reply : A) (run_id : Uuid) (st : RunStatus)
      : Type 0 where
    pub replies : (m s).0 ≡ returned reply
    pub stores : find (m s).1 run_id ≡ some st
    pub others : (other : Uuid) → other ≢ run_id → find (m s).1 other ≡ find s other
    pub valid : IsValid (m s).1

  pub record IntakeContract (store : RunIntakeStore S) : Type 0 where
    pub unknown_status :
        (run_id : Uuid) (s : S)
        → find s run_id ≡ none
        → store.get_status run_id s ≡ (raised (run_not_found run_id), s)
    pub known_status :
        (run_id : Uuid) (s : S) (st : RunStatus)
        → find s run_id ≡ some st
        → store.get_status run_id s ≡ (returned st, s)
    pub unknown_events :
        (run_id : Uuid) (after_sequence : Option ℕ) (s : S)
        → find s run_id ≡ none
        → store.get_events run_id after_sequence s ≡ (raised (run_not_found run_id), s)
    -- "Returns True if state was changed, False if already terminal."
    pub cancelled_already :
        (run_id : Uuid) (s : S) (st : RunStatus)
        → find s run_id ≡ some st
        → ((to : RunStatusCode) → ¬ Allowed st.status to)
        → store.mark_cancelled run_id s ≡ (returned false, s)
    pub cancels :
        (run_id : Uuid) (s : S) (st : RunStatus)
        → IsValid s
        → find s run_id ≡ some st
        → Allowed st.status cancelled
        → (st' : RunStatus) × (st'.status ≡ cancelled)
          × Stores (store.mark_cancelled run_id) s true run_id st'
    -- "User expresses an intent to cancel the run."
    pub asked_already :
        (run_id : Uuid) (s : S) (st : RunStatus)
        → IsValid s
        → find s run_id ≡ some st
        → settled_already st ≡ true
        → store.request_cancellation run_id s ≡ (returned false, s)
    pub asks :
        (run_id : Uuid) (s : S) (st : RunStatus)
        → IsValid s
        → find s run_id ≡ some st
        → settled_already st ≡ false
        → Stores (store.request_cancellation run_id) s true run_id (asked st)

  -- `Signalled` says that the workers are woken.
  pub record QueueContract (Signalled : S → Type 0) (queue : RunSignalQueue S) : Type 0 where
    pub returns : (s : S) → (queue.notify s).0 ≡ returned tt
    pub keeps_runs : (run_id : Uuid) (s : S) → find (queue.notify s).1 run_id ≡ find s run_id
    pub keeps_valid : (s : S) → IsValid s → IsValid (queue.notify s).1
    pub wakes : (s : S) → Signalled (queue.notify s).1

  pub record ProcessingContract (store : RunProcessingStore S) : Type 0 where
    pub unknown_status :
        (run_id : Uuid) (s : S)
        → find s run_id ≡ none
        → store.get_status run_id s ≡ (raised (run_not_found run_id), s)
    pub known_status :
        (run_id : Uuid) (s : S) (st : RunStatus)
        → find s run_id ≡ some st
        → store.get_status run_id s ≡ (returned st, s)
    -- "Extend the expiration time of a running run claimed by a given worker."
    pub extends :
        (run_id : Uuid) (worker_id : String) (s : S) (st : RunStatus)
        → IsValid s
        → find s run_id ≡ some st
        → st.status ≡ running
        → st.claimed_worker ≡ some worker_id
        → (t : Timestamp) × Stores
            (store.heartbeat run_id worker_id)
            s
            (record st { claim_expiration_unix_ts = some t })
            run_id
            (record st { claim_expiration_unix_ts = some t })
    -- ":raises: RunLeaseLostError - when the run is claimed by a different worker"
    pub loses :
        (run_id : Uuid) (worker_id : String) (s : S) (st : RunStatus)
        → IsValid s
        → find s run_id ≡ some st
        → st.status ≡ running
        → st.claimed_worker ≢ some worker_id
        → (store.heartbeat run_id worker_id s).0 ≡ raised (run_lease_lost run_id worker_id)
    pub succeeds :
        (run_id : Uuid) (result : Fields) (s : S) (st : RunStatus)
        → IsValid s
        → find s run_id ≡ some st
        → st.status ≡ running
        → Stores
            (store.set_succeeded run_id result)
            s
            tt
            run_id
            (record st { status = succeeded; result = some result })
    pub fails :
        (run_id : Uuid) (error : String) (s : S) (st : RunStatus)
        → IsValid s
        → find s run_id ≡ some st
        → st.status ≡ running
        → Stores
            (store.set_failed run_id error)
            s
            tt
            run_id
            (record st { status = failed; error = some error })
    pub cancels :
        (run_id : Uuid) (s : S) (st : RunStatus)
        → IsValid s
        → find s run_id ≡ some st
        → st.status ≡ running
        → Stores (store.set_cancelled run_id) s tt run_id (record st { status = cancelled })

-- "It must ensure: atomic sequence nr, assign a timestamp, guarantee ordering"
module _ {S : Type 0} (IsValid : S → Type 0) where
  pub record EventLogContract (log : RunEventLog S) : Type 0 where
    pub appends :
        (run_id : Uuid) (event_type : String) (payload : Fields) (s : S) (events : List RunEvent)
        → IsValid s
        → log.list run_id none s ≡ (returned events, s)
        → (e : RunEvent) × ((log.append run_id event_type payload s).0 ≡ returned e)
          × (e.sequence_nr ≡ length events + 1)
          × ((log.list run_id none (log.append run_id event_type payload s).1).0
              ≡ returned (events ++ e ∷ []))
          × ((other : Uuid) (after_sequence : Option ℕ)
              → other ≢ run_id
              → (log.list other after_sequence (log.append run_id event_type payload s).1).0
                ≡ (log.list other after_sequence s).0)
    pub keeps_valid :
        (run_id : Uuid) (event_type : String) (payload : Fields) (s : S)
        → IsValid s
        → IsValid (log.append run_id event_type payload s).1
    pub lists_after :
        (run_id : Uuid) (after_sequence : ℕ) (s : S) (events : List RunEvent)
        → IsValid s
        → log.list run_id none s ≡ (returned events, s)
        → log.list run_id (some after_sequence) s ≡ (returned (drop after_sequence events), s)
