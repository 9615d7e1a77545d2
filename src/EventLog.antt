-- ===== src/EventLog.antt =====
-- llm_agent/local_runtime/event_log/in_memory.py: `InMemoryRunEventLog`. Its lock is held over
-- code that never suspends, so a method is one step. `timestamp_utc` is what the clock shows.
pub mod IsOrdered
use python_agent_with_idp.Prelude.{
  ℕ, ◌+◌, String, Bool, true, false, Option, none, some, List, [], ◌∷◌, ◌++◌, ltb, if◌then◌else◌,
}
use python_agent_with_idp.Dict
use python_agent_with_idp.Dict.{Dict}
use python_agent_with_idp.Json.{Fields}
use python_agent_with_idp.Run.Status.{Uuid, Timestamp, RunEvent}
use python_agent_with_idp.Error.{Exception, stream_not_found, key_error}
use python_agent_with_idp.Exec.{Outcome, Done, returned, raised, Exec}

pub record EventLog : Type 0 where
  pub internal_run_events : Dict (List RunEvent)
  pub next_sequence_nr : Dict ℕ

abbrev pub new_event_log : EventLog
new_event_log = record { internal_run_events = []; next_sequence_nr = [] }

unfoldable pub init_run_stream : Uuid → Exec EventLog Done
init_run_stream run_id log =
    if Dict.contains log.internal_run_events run_id then (returned tt, log) else (
      returned tt,
      record log {
        internal_run_events = Dict.put log.internal_run_events run_id [];
        next_sequence_nr = Dict.put log.next_sequence_nr run_id 1;
      },
    )

-- The stream is found, then its counter; `deque.append` adds at the end.
append_numbered :
    Uuid → String → Fields → Timestamp → Option (List RunEvent) → Option ℕ → Exec EventLog RunEvent
append_numbered run_id event_type payload timestamp_utc none counter log =
    (raised (stream_not_found run_id), log)
append_numbered run_id event_type payload timestamp_utc (some events) none log =
    (raised (key_error run_id), log)
append_numbered run_id event_type payload timestamp_utc (some events) (some sequence_nr) log =
    let run_event : RunEvent = record {
      run_id = run_id;
      sequence_nr = sequence_nr;
      event_type = event_type;
      payload = payload;
      timestamp_utc = timestamp_utc;
    } in
    (
      returned run_event,
      record {
        internal_run_events = Dict.put log.internal_run_events run_id (events ++ run_event ∷ []);
        next_sequence_nr = Dict.put log.next_sequence_nr run_id (sequence_nr + 1);
      },
    )

unfoldable pub append : Uuid → String → Fields → Timestamp → Exec EventLog RunEvent
unfolding append_numbered
append run_id event_type payload timestamp_utc log =
    append_numbered run_id event_type payload timestamp_utc
      (Dict.get log.internal_run_events run_id) (Dict.get log.next_sequence_nr run_id) log

-- [run_event for run_event in events if run_event.sequence_nr > after_sequence]
unfoldable pub events_after : ℕ → List RunEvent → List RunEvent
events_after after_sequence [] = []
events_after after_sequence (run_event ∷ events) =
    let rest = events_after after_sequence events in
    if ltb after_sequence run_event.sequence_nr then run_event ∷ rest else rest

select : Option ℕ → List RunEvent → List RunEvent
unfolding events_after
select none events = events
select (some after_sequence) events = events_after after_sequence events

list_stream : Uuid → Option ℕ → Option (List RunEvent) → Outcome (List RunEvent)
unfolding select
list_stream run_id after_sequence none = raised (stream_not_found run_id)
list_stream run_id after_sequence (some events) = returned (select after_sequence events)

-- `list` only reads.
unfoldable pub list : EventLog → Uuid → Option ℕ → Outcome (List RunEvent)
unfolding list_stream
list log run_id after_sequence =
    list_stream run_id after_sequence (Dict.get log.internal_run_events run_id)
