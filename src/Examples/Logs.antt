-- ===== src/Examples/Logs.antt =====
-- The theorems on the event log and on the routes, at the concrete runs.
use python_agent_with_idp.Prelude.{◌≡◌, none, some, List, [], ◌∷◌, map, drop}
use python_agent_with_idp.Dict
use python_agent_with_idp.Dict.Laws.{get-put_self}
use python_agent_with_idp.Run.Code.{member}
use python_agent_with_idp.Run.Status.{RunEvent}
use python_agent_with_idp.Exec.{returned}
use python_agent_with_idp.EventLog.{EventLog, list}
use python_agent_with_idp.EventLog.IsOrdered.{list-eq-drop}
use python_agent_with_idp.Policy.{default_policy}
use python_agent_with_idp.Orchestrator.Submission.{created_event, enqueued_event}
use python_agent_with_idp.Api.{
  answered, run_to_dto, run_event_to_dto, create_agent_run, get_agent_run, cancel_agent_run,
  get_agent_run_events,
}
use python_agent_with_idp.Api.Answers.{
  not_found, enqueued_dto, event_dtos, unknown_run_answers, stored_run_answers, cancel_answers,
  submission_answers,
}
use python_agent_with_idp.Examples.{
  started, started_unknown, started_run_unknown, queued, queued_run, queued-IsSound, queued_stored,
}

abbrev log : EventLog
log = queued.internal_event_logs

abbrev two_events : List RunEvent
two_events = created_event started 7 "go" ∷ enqueued_event started 7 "go" ∷ []

logged : Dict.get log.internal_run_events 7 ≡ some two_events
logged = get-put_self started.internal_event_logs.internal_run_events 7 two_events

list-eq-drop_example :
    (list log 7 (some 1) ≡ returned (drop 1 two_events)) × (list log 7 none ≡ returned two_events)
list-eq-drop_example = list-eq-drop log 7 1 two_events queued-IsSound.ordered logged

unknown_run_answers_example :
    (get_agent_run 7 started ≡ (not_found 7, started))
    × (cancel_agent_run 7 started ≡ (not_found 7, started))
    × (get_agent_run_events 7 none started ≡ (not_found 7, started))
unknown_run_answers_example = unknown_run_answers started 7 none started_run_unknown

stored_run_answers_example :
    (get_agent_run 7 queued ≡ (answered (run_to_dto queued_run), queued))
    × (get_agent_run_events 7 none queued ≡ (answered (map run_event_to_dto two_events), queued))
    × (get_agent_run_events 7 (some 1) queued
        ≡ (answered (map run_event_to_dto (drop 1 two_events)), queued))
stored_run_answers_example =
    stored_run_answers queued 7 queued_run queued_stored 1 two_events queued-IsSound logged

cancel_answers_example :
    (cancel_agent_run 7 queued).0
    ≡ answered
        (record { run_id = 7; status = "cancel_requested"; message = "Run cancellation requested" })
unfolding member
cancel_answers_example = cancel_answers queued 7 queued_run queued_stored queued-IsSound

submission_answers_example :
    let (reply, s') = create_agent_run default_policy 7 "go" started in
    (reply ≡ answered (record { id = 7 }))
    × (get_agent_run 7 s' ≡ (answered (enqueued_dto started 7 "go"), s'))
    × (get_agent_run_events 7 none s' ≡ (answered (event_dtos started 7 "go"), s'))
submission_answers_example = submission_answers started 7 "go" started_unknown
