-- ===== src/Services/InMemory/Logged.antt =====
-- The contract of the event log, for the in-memory log.
use python_agent_with_idp.Prelude.{ℕ, ◌+◌, ◌≢◌, refl, ap, Option, none, length, arith}
use python_agent_with_idp.Run.Status.{Uuid}
use python_agent_with_idp.EventLog.IsOrdered.{
  IsOrdered, numbered_event, list-append, list-eq-drop, get_of_list, append-IsOrdered,
}
use python_agent_with_idp.Runtime.{InMemoryRuntime, append_event}
use python_agent_with_idp.Services.Contract.{EventLogContract}
use python_agent_with_idp.Services.InMemory.{in_memory_event_log}

-- The log of the runtime is in order.
abbrev pub LogsInOrder : InMemoryRuntime → Type 0
LogsInOrder s = IsOrdered s.internal_event_logs

pub in_memory_event_log-EventLogContract : EventLogContract LogsInOrder in_memory_event_log
unfolding append_event
in_memory_event_log-EventLogContract = record {
  appends = λ run_id event_type payload s events ordered listed.
      let log = s.internal_event_logs in
      let h = λ (other : Uuid) (after : Option ℕ) (apart : other ≢ run_id).
        list-append run_id event_type payload (s.clock 0) log events other after ordered
          (ap (λ p. p.0) listed) apart in
      let other = run_id + 1 in
      let apart : run_id + 1 ≢ run_id = λ e. omega arith in
      (
        numbered_event run_id event_type payload (s.clock 0) (length events + 1),
        (h other none apart).0,
        refl,
        (h other none apart).1,
        λ other' after_sequence apart'. (h other' after_sequence apart').2,
      );
  keeps_valid = λ run_id event_type payload s ordered.
      append-IsOrdered run_id event_type payload (s.clock 0) s.internal_event_logs ordered;
  lists_after = λ run_id after_sequence s events ordered listed.
      let log = s.internal_event_logs in
      ap (λ reply. (reply, s))
        (list-eq-drop log run_id after_sequence events ordered
          (get_of_list log run_id events (ap (λ p. p.0) listed))).0;
}
