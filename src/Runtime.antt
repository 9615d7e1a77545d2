-- ===== src/Runtime.antt =====
-- llm_agent/local_runtime/provider.py: `InMemoryRuntime`, what the stores, the orchestrator and
-- the workers share, and the statements on it that the stores are made of.
--
-- `clock` is what the host shows at each coming reading of the time. The readings are any
-- numbers: nothing is assumed of them unless a theorem says so.
use python_agent_with_idp.Prelude.{◌≡◌, arith, ℕ, suc, String, Bool, Option, none, some, []}
use python_agent_with_idp.Dict
use python_agent_with_idp.Dict.{Dict}
use python_agent_with_idp.Json.{Fields}
use python_agent_with_idp.Run.Status.{Uuid, Timestamp, RunStatus, RunEvent}
use python_agent_with_idp.Error.{key_error}
use python_agent_with_idp.Exec.{Outcome, Done, returned, raised, Exec, modify}
use python_agent_with_idp.EventLog
use python_agent_with_idp.EventLog.{EventLog, new_event_log}
use python_agent_with_idp.SignalQueue
use python_agent_with_idp.SignalQueue.{SignalQueue, new_signal_queue}

abbrev pub Clock : Type 0
Clock = ℕ → Timestamp

pub record InMemoryRuntime : Type 0 where
  pub internal_run_storage : Dict RunStatus
  pub internal_event_logs : EventLog
  pub run_signal_queue : SignalQueue
  pub clock : Clock

unfoldable pub create_default_in_memory_runtime : Clock → InMemoryRuntime
create_default_in_memory_runtime clock = record {
  internal_run_storage = [];
  internal_event_logs = new_event_log;
  run_signal_queue = new_signal_queue;
  clock = clock;
}

abbrev later : Clock → Clock
later clock n = clock (suc n)

-- datetime.datetime.now(tz=datetime.UTC)
unfoldable pub read_clock : Exec InMemoryRuntime Timestamp
read_clock s = (returned (s.clock 0), record s { clock = later s.clock })

item : Uuid → Option RunStatus → Outcome RunStatus
item run_id none = raised (key_error run_id)
item run_id (some run_status) = returned run_status

-- self._runs[run_id]
unfoldable pub run_at : Uuid → Exec InMemoryRuntime RunStatus
unfolding item
run_at run_id s = (item run_id (Dict.get s.internal_run_storage run_id), s)

pub run_at_there :
    (run_id : Uuid) (s : InMemoryRuntime) {run_status : RunStatus}
    → Dict.get s.internal_run_storage run_id ≡ some run_status
    → run_at run_id s ≡ (returned run_status, s)
unfolding run_at
run_at_there run_id s e = ground arith

pub run_at_missing :
    (run_id : Uuid) (s : InMemoryRuntime)
    → Dict.get s.internal_run_storage run_id ≡ none
    → run_at run_id s ≡ (raised (key_error run_id), s)
unfolding run_at
run_at_missing run_id s e = ground arith

-- run_id in self._runs
abbrev pub has_run : Uuid → InMemoryRuntime → Bool
has_run run_id s = Dict.contains s.internal_run_storage run_id

-- self._runs[run_id] = run_status
unfoldable pub set_run : Uuid → RunStatus → Exec InMemoryRuntime Done
set_run run_id run_status =
    modify
      (λ s. record s { internal_run_storage = Dict.put s.internal_run_storage run_id run_status })

-- self._events.init_run_stream(run_id=run_id)
unfoldable pub init_run_stream : Uuid → Exec InMemoryRuntime Done
init_run_stream run_id s =
    let (r, log) = EventLog.init_run_stream run_id s.internal_event_logs in
    (r, record s { internal_event_logs = log })

-- self._events.append(...), stamped with the next reading of the clock
unfoldable pub append_event : Uuid → String → Fields → Exec InMemoryRuntime RunEvent
append_event run_id event_type payload s =
    let (r, log) = EventLog.append run_id event_type payload (s.clock 0) s.internal_event_logs in
    (r, record s { internal_event_logs = log; clock = later s.clock })

unfoldable pub notify : Exec InMemoryRuntime Done
notify = modify (λ s. record s { run_signal_queue = SignalQueue.notify s.run_signal_queue })
