-- ===== src/Services/InMemory/Writing.antt =====
-- The methods that write a run.
use python_agent_with_idp.Prelude.{
  ◌≡◌, refl, sym, Bool-cases, ==→eq, String, true, false, none, some, ◌==◌, inl, inr,
}
use python_agent_with_idp.Dict
use python_agent_with_idp.Dict.Laws.{get-put_self, get-put, contains_of_get}
use python_agent_with_idp.Json.{Fields, end}
use python_agent_with_idp.Run.Code.{RunStatusCode, cancelled, member, terminal_run_statuses}
use python_agent_with_idp.Run.Status.{Uuid, RunStatus, RunEvent}
use python_agent_with_idp.Request.{TransitionRequestParams}
use python_agent_with_idp.Exec.{returned, Exec, return, ◌>>=◌, ◌>>◌}
use python_agent_with_idp.Policy.{default_policy}
use python_agent_with_idp.Policy.Allowed.{Allowed, validate-Allowed, terminal_iff_no_arrow}
use python_agent_with_idp.Runtime.{InMemoryRuntime, run_at_there, set_run, append_event}
use python_agent_with_idp.Writes.{write}
use python_agent_with_idp.Lifecycle.{WorkerStep}
use python_agent_with_idp.Transition.{moved, transition_locked}
use python_agent_with_idp.Transition.Exact.{transition_locked_taken}
use python_agent_with_idp.Calls.Sound.{IsSound, write-IsSound, worker-IsSound, append_event-IsSound}
use python_agent_with_idp.Intake
use python_agent_with_idp.Claiming.Heartbeat.{append_event_there}
use python_agent_with_idp.Services.Contract.{Stores}
use python_agent_with_idp.Services.InMemory.{find}

-- A method that ends like this.
pub Stores-put :
    {A : Type 0} (m : Exec InMemoryRuntime A) (s s' : InMemoryRuntime) (reply : A) (run_id : Uuid)
    (st : RunStatus)
    → m s ≡ (returned reply, s')
    → s'.internal_run_storage ≡ Dict.put s.internal_run_storage run_id st
    → IsSound s'
    → Stores IsSound find m s reply run_id st
Stores-put m s s' reply run_id st ends stored sound = record {
  replies = rw ends refl;
  stores = rw (ends, stored) (get-put_self s.internal_run_storage run_id st);
  others = λ other different.
      rw (ends, stored)
        (elim (Bool-cases (run_id == other)) [
          | inl same ↦ absurd (different (sym (==→eq run_id other same)))
          | inr apart ↦ rw (get-put, apart) refl
        ]);
  valid = rw ends sound;
}

module _ (run_id : Uuid) (s : InMemoryRuntime) (st : RunStatus) (sound : IsSound s)
    (g : find s run_id ≡ some st) where
  -- The state after a new record and the event of it.
  abbrev pub noted : RunStatus → String → Fields → InMemoryRuntime
  noted new event_type payload = (append_event run_id event_type payload (write s run_id new)).1

  noted_there :
      (new : RunStatus) (event_type : String) (payload : Fields)
      → IsSound (write s run_id new)
      → ((e : RunEvent) × (append_event run_id event_type payload (write s run_id new)
            ≡ (returned e, noted new event_type payload)))
        × ((noted new event_type payload).internal_run_storage
            ≡ Dict.put s.internal_run_storage run_id new)
        × IsSound (noted new event_type payload)
  unfolding append_event
  noted_there new event_type payload written =
      let (e, appended) =
        append_event_there (write s run_id new) run_id new event_type payload written
          (get-put_self s.internal_run_storage run_id new) in
      (
        (e, rw appended refl),
        refl,
        (append_event-IsSound run_id event_type payload).after (write s run_id new) written,
      )

  -- A change of status, and the event of it.
  pub closing :
      (target : RunStatusCode) (request : TransitionRequestParams) (event_type : String)
      (payload : Fields)
      → Allowed st.status target
      → WorkerStep st (moved st target request)
      → Stores IsSound find
          (do
            transition_locked default_policy run_id target (some request)
            append_event run_id event_type payload
            return tt)
          s
          tt
          run_id
          (moved st target request)
  unfolding ◌>>=◌
  closing target request event_type payload arrow step =
      let new = moved st target request in
      let ((e, appended), stored, sound') =
        noted_there new event_type payload (worker-IsSound s run_id st new sound g step) in
      Stores-put _ s (noted new event_type payload) tt run_id new
        (rw (transition_locked_taken run_id target (some request) s st g arrow, appended) refl)
        stored sound'

  -- The record that `mark_cancelled` writes.
  abbrev pub marked : RunStatus
  marked = record {
    id = st.id;
    status = cancelled;
    result = st.result;
    error = st.error;
    claimed_worker = none;
    claim_expiration_unix_ts = none;
    retry_count = some 0;
    cancel_requested = false;
  }

  marked-IsSound : IsSound (write s run_id marked)
  marked-IsSound = write-IsSound s run_id st marked sound g (record {
    own_id = (sound.runs run_id st g).own_id;
    counted = refl;
    owned = λ is_running. cc;
    leased = λ is_running. cc;
  })

  pub mark_cancelled-Stores :
      Allowed st.status cancelled
      → Stores IsSound find (Intake.mark_cancelled default_policy run_id) s true run_id marked
  unfolding Intake.mark_cancelled ◌>>=◌ set_run
  mark_cancelled-Stores arrow =
      let ((e, appended), stored, sound') = noted_there marked "cancelled" end marked-IsSound in
      let live : member st.status terminal_run_statuses ≡ false =
        elim (Bool-cases (member st.status terminal_run_statuses)) [
          | inl terminal ↦ absurd ((terminal_iff_no_arrow st.status).0 terminal cancelled arrow)
          | inr live ↦ live
        ] in
      Stores-put _ s (noted marked "cancelled" end) true run_id marked
        (rw
          (
            contains_of_get s.internal_run_storage run_id g,
            run_at_there run_id s g,
            live,
            (validate-Allowed st cancelled).1 arrow,
            appended,
          )
          refl)
        stored sound'
