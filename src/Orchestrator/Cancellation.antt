-- ===== src/Orchestrator/Cancellation.antt =====
-- What `cancel_run` does, for a stored run in a sound state and for an unknown one.
use python_agent_with_idp.Prelude.{
  ◌≡◌, refl, Bool, true, false, not, ◌||◌, some, Bool-cases, inl, inr, if◌then◌else◌, arith,
}
use python_agent_with_idp.Dict
use python_agent_with_idp.Dict.Laws.{contains_of_get, get-put_self}
use python_agent_with_idp.Json.{end}
use python_agent_with_idp.Run.Code.{member, terminal_run_statuses}
use python_agent_with_idp.Run.Status.{Uuid, RunStatus}
use python_agent_with_idp.Error.{run_not_found}
use python_agent_with_idp.Exec.{returned, raised, ◌>>=◌}
use python_agent_with_idp.SignalQueue
use python_agent_with_idp.Runtime.{InMemoryRuntime, run_at_there, set_run, append_event, notify}
use python_agent_with_idp.Writes.{write}
use python_agent_with_idp.Calls.Sound.{IsSound, write-IsSound}
use python_agent_with_idp.Intake
use python_agent_with_idp.Services.Contract.{asked, settled_already}
use python_agent_with_idp.Orchestrator.{cancel_run}
use python_agent_with_idp.Claiming.Heartbeat.{append_event_there}

asked-IsSound :
    (s : InMemoryRuntime) (run_id : Uuid) (st : RunStatus)
    → IsSound s
    → Dict.get s.internal_run_storage run_id ≡ some st
    → IsSound (write s run_id (asked st))
asked-IsSound s run_id st sound g =
    let h = sound.runs run_id st g in
    write-IsSound s run_id st (asked st) sound g
      (record { own_id = h.own_id; counted = h.counted; owned = h.owned; leased = h.leased })

pub or_false : (a b : Bool) → (a || b) ≡ false → (a ≡ false) × (b ≡ false)
or_false a b h = ground arith

module _ (s : InMemoryRuntime) (run_id : Uuid) where
  -- A request for an unknown run raises RunNotFoundError, and nothing changes.
  pub cancel_run_missing :
      Dict.contains s.internal_run_storage run_id ≡ false
      → cancel_run run_id s ≡ (raised (run_not_found run_id), s)
  unfolding cancel_run Intake.request_cancellation ◌>>=◌
  cancel_run_missing g = rw g refl

  module _ (st : RunStatus) (sound : IsSound s)
      (g : Dict.get s.internal_run_storage run_id ≡ some st) where
    pub request_ignored :
        settled_already st ≡ true → Intake.request_cancellation run_id s ≡ (returned false, s)
    unfolding Intake.request_cancellation ◌>>=◌
    request_ignored h =
        rw (contains_of_get s.internal_run_storage run_id g, run_at_there run_id s g)
          (elim (Bool-cases (member st.status terminal_run_statuses)) [
            | inl terminal ↦ rw terminal refl
            | inr live ↦
                let asked_before : st.cancel_requested ≡ true = rw live at h in
                rw (live, asked_before) refl
          ])

    pub request_taken :
        member st.status terminal_run_statuses ≡ false
        → st.cancel_requested ≡ false
        → ((Intake.request_cancellation run_id s).0 ≡ returned true)
          × ((Intake.request_cancellation run_id s).1.internal_run_storage
              ≡ Dict.put s.internal_run_storage run_id (asked st))
    unfolding Intake.request_cancellation ◌>>=◌ set_run append_event
    request_taken live unasked =
        let (e, appended) =
          append_event_there (write s run_id (asked st)) run_id (asked st) "cancel requested" end
            (asked-IsSound s run_id st sound g)
            (get-put_self s.internal_run_storage run_id (asked st)) in
        rw
          (
            contains_of_get s.internal_run_storage run_id g,
            run_at_there run_id s g,
            live,
            unasked,
            appended,
          )
          (refl, refl)

    cancel_ignored : settled_already st ≡ true → cancel_run run_id s ≡ (returned false, s)
    unfolding cancel_run ◌>>=◌
    cancel_ignored h = rw (request_ignored h) refl

    pub cancel_taken :
        settled_already st ≡ false
        → ((cancel_run run_id s).0 ≡ returned true)
          × ((cancel_run run_id s).1.internal_run_storage
              ≡ Dict.put s.internal_run_storage run_id (asked st))
          × ((cancel_run run_id s).1.run_signal_queue.event ≡ true)
    unfolding cancel_run ◌>>=◌ notify SignalQueue.notify
    cancel_taken h =
        let (replied, stored) = request_taken (or_false _ _ h).0 (or_false _ _ h).1 in
        rw replied (refl, stored, refl)

    -- The reply to a request to cancel a stored run, in a sound state, is true exactly when
    -- the run is not terminal and was not asked to be cancelled before. Then the request is
    -- noted on the run and the workers are woken. Otherwise no run is written, and no signal
    -- given.
    pub cancel_run_exact :
        let (reply, s') = cancel_run run_id s in
        let settled = settled_already st in
        (reply ≡ returned (not settled))
        × (s'.internal_run_storage ≡ (
            if settled
            then s.internal_run_storage
            else Dict.put s.internal_run_storage run_id (asked st)))
        × (s'.run_signal_queue.event ≡ (if settled then s.run_signal_queue.event else true))
    cancel_run_exact = elim (Bool-cases (settled_already st)) [
      | inl settled ↦ rw (cancel_ignored settled, settled) (refl, refl, refl)
      | inr live ↦ rw live (cancel_taken live)
    ]
