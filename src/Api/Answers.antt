-- ===== src/Api/Answers.antt =====
-- What the routes answer.
use python_agent_with_idp.Prelude.{
  ℕ, ◌≡◌, refl, String, false, Option, none, some, List, [], ◌∷◌, map, drop, Bool-cases, inl, inr,
  if◌then◌else◌,
}
use python_agent_with_idp.Dict
use python_agent_with_idp.Dict.Laws.{get-put_self, contains_of_get}
use python_agent_with_idp.Json.{field, str, end}
use python_agent_with_idp.Run.Code.{name, enqueued}
use python_agent_with_idp.Run.Status.{Uuid, RunStatus, RunEvent}
use python_agent_with_idp.Error.{run_not_found, str_exception}
use python_agent_with_idp.Exec.{returned, ◌>>=◌}
use python_agent_with_idp.Policy.{default_policy}
use python_agent_with_idp.EventLog
use python_agent_with_idp.EventLog.IsOrdered.{list-eq-drop}
use python_agent_with_idp.Runtime.{InMemoryRuntime, run_at_there}
use python_agent_with_idp.Lifecycle.{fresh}
use python_agent_with_idp.Intake
use python_agent_with_idp.Intake.{new_run}
use python_agent_with_idp.Orchestrator
use python_agent_with_idp.Orchestrator.Submission.{
  submitted, created_event, enqueued_event, create_run_exact,
}
use python_agent_with_idp.Orchestrator.Cancellation.{cancel_run_missing, cancel_run_exact}
use python_agent_with_idp.Services.Contract.{settled_already}
use python_agent_with_idp.Calls.Sound.{IsSound}
use python_agent_with_idp.Api.{
  RunDto, RunEventDto, run_to_dto, run_event_to_dto, Answer, answered, http_exception, or_404,
  or_404_or_400, or_500, create_agent_run, get_agent_run, cancel_response, cancel_agent_run,
  get_agent_run_events,
}

-- The answer for a run that is not stored.
abbrev pub not_found : {A : Type 0} → Uuid → Answer A
not_found run_id = http_exception 404 (str_exception (run_not_found run_id))

module _ (s : InMemoryRuntime) (run_id : Uuid) where
  -- For an unknown run the three routes that name a run answer 404, and nothing changes.
  pub unknown_run_answers :
      (after : Option ℕ)
      → Dict.contains s.internal_run_storage run_id ≡ false
      → (get_agent_run run_id s ≡ (not_found run_id, s))
        × (cancel_agent_run run_id s ≡ (not_found run_id, s))
        × (get_agent_run_events run_id after s ≡ (not_found run_id, s))
  unfolding get_agent_run cancel_agent_run get_agent_run_events Orchestrator.get_run
      Intake.get_status or_404 or_404_or_400 ◌>>=◌
  unknown_run_answers after missing =
      (rw missing refl, rw (cancel_run_missing s run_id missing) refl, rw missing refl)

  module _ (st : RunStatus) (g : Dict.get s.internal_run_storage run_id ≡ some st) where
    get_run_there : Orchestrator.get_run run_id s ≡ (returned st, s)
    unfolding Orchestrator.get_run Intake.get_status ◌>>=◌
    get_run_there =
        rw (contains_of_get s.internal_run_storage run_id g, run_at_there run_id s g) refl

    -- For a stored run of a sound state with its stream of events, the state of the run and
    -- its events are answered, and nothing changes: all the events without `after`, and those
    -- past the first `k` with `after = k`.
    pub stored_run_answers :
        (k : ℕ) (events : List RunEvent)
        → IsSound s
        → Dict.get s.internal_event_logs.internal_run_events run_id ≡ some events
        → (get_agent_run run_id s ≡ (answered (run_to_dto st), s))
          × (get_agent_run_events run_id none s ≡ (answered (map run_event_to_dto events), s))
          × (get_agent_run_events run_id (some k) s
              ≡ (answered (map run_event_to_dto (drop k events)), s))
    unfolding get_agent_run get_agent_run_events Orchestrator.get_events Intake.get_events or_404
        or_404_or_400 ◌>>=◌
    stored_run_answers k events sound logged =
        let (some_of_them, all_of_them) =
          list-eq-drop s.internal_event_logs run_id k events sound.ordered logged in
        let there = contains_of_get s.internal_run_storage run_id g in
        (
          rw get_run_there refl,
          rw (get_run_there, there, all_of_them) refl,
          rw (get_run_there, there, some_of_them) refl,
        )

    -- A request to cancel a stored run of a sound state is always answered. The answer says
    -- "cancel_requested" when the run is neither terminal nor asked to be cancelled already,
    -- and "already_terminal" otherwise.
    pub cancel_answers :
        IsSound s
        → (cancel_agent_run run_id s).0
          ≡ answered (
              if settled_already st
              then record {
                run_id = run_id;
                status = "already_terminal";
                message = "Run already in terminal state or cancel is requested";
              }
              else record {
                run_id = run_id;
                status = "cancel_requested";
                message = "Run cancellation requested";
              })
    unfolding cancel_agent_run cancel_response or_404 ◌>>=◌
    cancel_answers sound =
        let (replied, _, _) = cancel_run_exact s run_id st sound g in
        elim (Bool-cases (settled_already st)) [
          | inl settled ↦ rw (replied, settled) refl
          | inr live ↦ rw (replied, live) refl
        ]

module _ (s : InMemoryRuntime) (run_id : Uuid) (prompt : String) where
  -- What a client reads of a run right after it has submitted it.
  abbrev pub enqueued_dto : RunDto
  enqueued_dto = record {
    id = run_id;
    status = "ENQUEUED";
    result = none;
    error = none;
    cancel_requested = false;
  }

  -- The two events, as the client reads them.
  abbrev pub event_dtos : List RunEventDto
  event_dtos =
      record {
        sequence_nr = 1;
        event_type = "created";
        payload = field "user_id" (str "hardcoded_user_later_take_it_from_context") end;
        timestamp_utc = s.clock 0;
      }
      ∷ record {
        sequence_nr = 2;
        event_type = "enqueued";
        payload = end;
        timestamp_utc = s.clock 1;
      }
      ∷ []

  after_submission :
      Dict.contains s.internal_event_logs.internal_run_events run_id ≡ false
      → create_agent_run default_policy run_id prompt s
        ≡ (answered (record { id = run_id }), submitted s run_id prompt)
  unfolding create_agent_run or_500 ◌>>=◌
  after_submission unknown = rw (create_run_exact s run_id prompt unknown) refl

  read_back :
      get_agent_run run_id (submitted s run_id prompt)
      ≡ (answered enqueued_dto, submitted s run_id prompt)
  unfolding get_agent_run or_404 name ◌>>=◌
  read_back =
      rw
        (get_run_there (submitted s run_id prompt) run_id (fresh (new_run run_id) enqueued)
          (get-put_self s.internal_run_storage run_id (fresh (new_run run_id) enqueued)))
        refl

  events_back :
      get_agent_run_events run_id none (submitted s run_id prompt)
      ≡ (answered event_dtos, submitted s run_id prompt)
  unfolding get_agent_run_events run_event_to_dto Orchestrator.get_events Intake.get_events
      EventLog.list or_404_or_400 ◌>>=◌
  events_back =
      let stored = get-put_self s.internal_run_storage run_id (fresh (new_run run_id) enqueued) in
      rw
        (
          get_run_there (submitted s run_id prompt) run_id (fresh (new_run run_id) enqueued) stored,
          contains_of_get (submitted s run_id prompt).internal_run_storage run_id stored,
          get-put_self s.internal_event_logs.internal_run_events run_id
              (created_event s run_id prompt ∷ enqueued_event s run_id prompt ∷ []),
        )
        refl

  -- A client that submits a prompt, under a UUID without a stream of events, gets this UUID
  -- back. With it, it then reads a run that is ENQUEUED, without result or error, and the two
  -- events "created" and "enqueued".
  pub submission_answers :
      Dict.contains s.internal_event_logs.internal_run_events run_id ≡ false
      → let (reply, s') = create_agent_run default_policy run_id prompt s in
        (reply ≡ answered (record { id = run_id }))
        × (get_agent_run run_id s' ≡ (answered enqueued_dto, s'))
        × (get_agent_run_events run_id none s' ≡ (answered event_dtos, s'))
  submission_answers unknown = rw (after_submission unknown) (refl, read_back, events_back)
