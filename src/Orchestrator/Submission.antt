-- ===== src/Orchestrator/Submission.antt =====
-- What `create_run` does, for a UUID that is new.
use python_agent_with_idp.Prelude.{suc, ◌≡◌, String, true, false, [], ◌∷◌}
use python_agent_with_idp.Dict
use python_agent_with_idp.Dict.Laws.{get-put_self, put-put}
use python_agent_with_idp.Json.{end, field, str}
use python_agent_with_idp.Run.Code.{enqueued}
use python_agent_with_idp.Run.Status.{Uuid, RunEvent}
use python_agent_with_idp.Exec.{returned, ◌>>=◌}
use python_agent_with_idp.Policy.{default_policy}
use python_agent_with_idp.Policy.Allowed
use python_agent_with_idp.Policy.Allowed.{validate-Allowed}
use python_agent_with_idp.EventLog
use python_agent_with_idp.SignalQueue
use python_agent_with_idp.Runtime.{
  InMemoryRuntime, run_at_there, set_run, append_event, init_run_stream, notify,
}
use python_agent_with_idp.Lifecycle.{fresh}
use python_agent_with_idp.Intake
use python_agent_with_idp.Intake.{new_run}
use python_agent_with_idp.Orchestrator.{create_run, request_for}

module _ (s : InMemoryRuntime) (run_id : Uuid) (prompt : String) where
  -- The two events of a new run, stamped with the next two readings of the clock.
  abbrev pub created_event : RunEvent
  created_event = record {
    run_id = run_id;
    sequence_nr = 1;
    event_type = "created";
    payload = field "user_id" (str (request_for prompt).user_id) end;
    timestamp_utc = s.clock 0;
  }

  abbrev pub enqueued_event : RunEvent
  enqueued_event = record {
    run_id = run_id;
    sequence_nr = 2;
    event_type = "enqueued";
    payload = end;
    timestamp_utc = s.clock 1;
  }

  -- The state that `create_run` leaves.
  abbrev pub submitted : InMemoryRuntime
  submitted = record {
    internal_run_storage = Dict.put s.internal_run_storage run_id (fresh (new_run run_id) enqueued);
    internal_event_logs = record {
      internal_run_events =
          Dict.put s.internal_event_logs.internal_run_events run_id
            (created_event ∷ enqueued_event ∷ []);
      next_sequence_nr = Dict.put s.internal_event_logs.next_sequence_nr run_id 3;
    };
    run_signal_queue = record { event = true };
    clock = λ n. s.clock (suc (suc n));
  }

  -- The state after the first of its statements.
  abbrev created_runtime : InMemoryRuntime
  created_runtime = record {
    internal_run_storage = Dict.put s.internal_run_storage run_id (new_run run_id);
    internal_event_logs = record {
      internal_run_events =
          Dict.put s.internal_event_logs.internal_run_events run_id (created_event ∷ []);
      next_sequence_nr = Dict.put s.internal_event_logs.next_sequence_nr run_id 2;
    };
    run_signal_queue = s.run_signal_queue;
    clock = λ n. s.clock (suc n);
  }

  created_state :
      Dict.contains s.internal_event_logs.internal_run_events run_id ≡ false
      → Intake.create_run run_id (request_for prompt) s
        ≡ (returned (new_run run_id), created_runtime)
  unfolding Intake.create_run set_run init_run_stream append_event EventLog.init_run_stream
      EventLog.append ◌>>=◌
  created_state unknown = rw unknown (simp (get-put_self, put-put))

  -- A submission under a UUID that has no stream of events returns the record of the run as it
  -- was created, and leaves the run stored as ENQUEUED, with the events "created" and
  -- "enqueued" numbered 1 and 2, and the workers woken.
  pub create_run_exact :
      Dict.contains s.internal_event_logs.internal_run_events run_id ≡ false
      → create_run default_policy run_id prompt s ≡ (returned (new_run run_id), submitted)
  unfolding create_run Intake.mark_enqueued set_run append_event notify SignalQueue.notify
      EventLog.append ◌>>=◌
  create_run_exact unknown =
      rw
        (
          created_state unknown,
          run_at_there run_id created_runtime
              (get-put_self s.internal_run_storage run_id (new_run run_id)),
          (validate-Allowed (new_run run_id) enqueued).1 Allowed.enqueue,
        )
        (simp (get-put_self, put-put))
