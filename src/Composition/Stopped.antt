-- ===== src/Composition/Stopped.antt =====
-- What the end of the application leaves of the consumer of the local setup.
use python_agent_with_idp.Prelude.{
  String, ◌≡◌, ◌≢◌, ◌∙◌, sym, ap, refl, Bool, ◌⊎◌, inl, inr, true, false, Option, none, some, List,
  [], ◌∷◌,
}
use python_agent_with_idp.Exec.{Outcome, returned, raised, Exec, Done, resume, lift, ◌>>=◌}
use python_agent_with_idp.Policy.{RunTransitionPolicy}
use python_agent_with_idp.SignalQueue
use python_agent_with_idp.Worker.{Worker, cancel_current}
use python_agent_with_idp.Worker.Lease
use python_agent_with_idp.Worker.Executor.{shutdown_execution}
use python_agent_with_idp.Worker.Consumer.{Round, consume_and_execute_loop}
use python_agent_with_idp.Composition.{Svcs, Registrar}
use python_agent_with_idp.Composition.Lifespan.{
  finally_await, lifespan_body, di_lifespan, on_infrastructure, Task, active, ended, cancelled,
  Place, not_started, waiting, executing, leaving, LocalDev, unwind, end_of, await_task, stop_task,
  shutdown, local_dev,
}

-- What a task raises when it is awaited, in place of the outcome of the application.
abbrev pub after_task : Option Task → Outcome Done → Outcome Done
after_task (some (ended (raised e))) reply = raised e
after_task (some (active (leaving (raised e)))) reply = raised e
after_task _ reply = reply

-- The event is set, unless the loop was waiting for it.
abbrev pub woken_after : Option Task → Bool
woken_after (some (active waiting)) = false
woken_after _ = true

-- The consumer works on no run.
abbrev pub IsIdle : Worker → Type 0
IsIdle w = (w.current_run_execution_ctx ≡ none) × (w.heartbeat_task ≡ false)

-- The consumer takes no runs any more, with the stored runs and events as they were.
pub record IsStopped (served stopped : LocalDev) : Type 0 where
  pub refuses : stopped.consumer.execution_allowed ≡ false
  pub woken : stopped.consumer.runtime.run_signal_queue.event ≡ woken_after served.task
  pub same_runs :
      stopped.consumer.runtime.internal_run_storage ≡ served.consumer.runtime.internal_run_storage
  pub same_events :
      stopped.consumer.runtime.internal_event_logs ≡ served.consumer.runtime.internal_event_logs
  pub no_task : (place : Place) → stopped.task ≢ some (active place)
  pub idle :
      (served.task ≡ some (active executing)) ⊎ IsIdle served.consumer → IsIdle stopped.consumer
  pub left :
      (reply : Outcome Done)
      → served.task ≡ some (active (leaving reply))
      → stopped.consumer.heartbeat_task ≡ false

-- The state in which a task ends.
abbrev stopped_by : Option Task → LocalDev → LocalDev
unfolding unwind end_of
stopped_by (some (active place)) s = record {
  consumer = unwind place (shutdown_execution s.consumer);
  task = some (end_of place);
}
stopped_by _ s = record s { consumer = shutdown_execution s.consumer }

shutdown_idle : (w : Worker) → IsIdle w → IsIdle (shutdown_execution w)
unfolding shutdown_execution cancel_current
shutdown_idle w (no_context, no_heartbeat) = (rw no_context refl, no_heartbeat)

-- The consumer is left as `shutdown_execution` leaves it.
undisturbed :
    (s : LocalDev) (after : Option Task)
    → woken_after s.task ≡ true
    → ((place : Place) → after ≢ some (active place))
    → s.task ≢ some (active executing)
    → ((reply : Outcome Done) → s.task ≢ some (active (leaving reply)))
    → IsStopped s (record { consumer = shutdown_execution s.consumer; task = after })
unfolding shutdown_execution cancel_current SignalQueue.notify
undisturbed s after woken no_task not_executing not_leaving = record {
  refuses = refl;
  woken = sym woken;
  same_runs = refl;
  same_events = refl;
  no_task = no_task;
  idle = λ h. elim h [
    | inl is_executing ↦ absurd (not_executing is_executing)
    | inr is_idle ↦ shutdown_idle s.consumer is_idle
  ];
  left = λ reply is_leaving. absurd (not_leaving reply is_leaving);
}

stopped_by-IsStopped :
    (s : LocalDev) (task : Option Task) → s.task ≡ task → IsStopped s (stopped_by task s)
unfolding shutdown_execution cancel_current SignalQueue.notify SignalQueue.wait Lease.exit unwind
    end_of
stopped_by-IsStopped s none e =
    undisturbed s _ (rw e refl) (λ place is_active. cc) (λ is_executing. cc)
      (λ reply is_leaving. cc)
stopped_by-IsStopped s (some (ended reply)) e =
    undisturbed s _ (rw e refl) (λ place is_active. cc) (λ is_executing. cc)
      (λ reply is_leaving. cc)
stopped_by-IsStopped s (some cancelled) e =
    undisturbed s _ (rw e refl) (λ place is_active. cc) (λ is_executing. cc)
      (λ reply is_leaving. cc)
stopped_by-IsStopped s (some (active not_started)) e =
    undisturbed s _ (rw e refl) (λ place is_active. cc) (λ is_executing. cc)
      (λ reply is_leaving. cc)
stopped_by-IsStopped s (some (active waiting)) e = record {
  refuses = refl;
  woken = rw e refl;
  same_runs = refl;
  same_events = refl;
  no_task = λ place is_active. cc;
  idle = λ h. elim h [ inl is_executing ↦ cc | inr h ↦ shutdown_idle s.consumer h ];
  left = λ reply is_leaving. cc;
}
stopped_by-IsStopped s (some (active executing)) e = record {
  refuses = refl;
  woken = rw e refl;
  same_runs = refl;
  same_events = refl;
  no_task = λ place is_active. cc;
  idle = λ h. (refl, refl);
  left = λ reply' is_leaving. refl;
}
stopped_by-IsStopped s (some (active (leaving reply))) e = record {
  refuses = refl;
  woken = rw e refl;
  same_runs = refl;
  same_events = refl;
  no_task = λ place is_active. cc;
  idle = λ h. elim h [
    | inl is_executing ↦ cc
    | inr is_idle ↦ ((shutdown_idle s.consumer is_idle).0, refl)
  ];
  left = λ reply' is_leaving. refl;
}

shutdown_lem :
    (s : LocalDev) (task : Option Task) → s.task ≡ task → (shutdown s).1 ≡ stopped_by task s
unfolding shutdown stop_task await_task ◌>>=◌
shutdown_lem s none e = rw e refl
shutdown_lem s (some (active not_started)) e = rw e refl
shutdown_lem s (some (active waiting)) e = rw e refl
shutdown_lem s (some (active executing)) e = rw e refl
shutdown_lem s (some (active (leaving reply))) e = rw e refl
shutdown_lem s (some (ended reply)) e = rw e refl
shutdown_lem s (some cancelled) e = rw e refl

shutdown-IsStopped : (s : LocalDev) → IsStopped s (shutdown s).1
shutdown-IsStopped s = rw (shutdown_lem s s.task refl) (stopped_by-IsStopped s s.task refl)

shutdown_replies :
    (reply : Outcome Done) (s : LocalDev) (task : Option Task)
    → s.task ≡ task
    → finally_await (λ s'. (reply, s')) shutdown s ≡ (after_task task reply, (shutdown s).1)
unfolding shutdown stop_task await_task finally_await ◌>>=◌
shutdown_replies reply s none e = rw e refl
shutdown_replies reply s (some (active not_started)) e = rw e refl
shutdown_replies reply s (some (active waiting)) e = rw e refl
shutdown_replies reply s (some (active executing)) e = rw e refl
shutdown_replies reply s (some (active (leaving (returned tt)))) e = rw e refl
shutdown_replies reply s (some (active (leaving (raised exc)))) e = rw e refl
shutdown_replies reply s (some (ended (returned tt))) e = rw e refl
shutdown_replies reply s (some (ended (raised exc))) e = rw e refl
shutdown_replies reply s (some cancelled) e = rw e refl

-- A run of the loop on a consumer that takes no runs does nothing.
loop_refuses :
    (policy : RunTransitionPolicy) (worker_id : String) (rounds : List Round) (w : Worker)
    → w.execution_allowed ≡ false
    → consume_and_execute_loop policy worker_id rounds w ≡ (returned tt, w)
unfolding consume_and_execute_loop ◌>>=◌
loop_refuses policy worker_id [] w e = refl
loop_refuses policy worker_id (round ∷ rounds) w e = rw e refl

-- The registry stays out of the shutdown.
lift_beside :
    {R : Type 0} (registry : R) (reply outcome : Outcome Done) (s : LocalDev)
    → resume {S = R × LocalDev} outcome (λ done. lift reply) (registry, s)
      ≡ (let (last, s') = resume outcome (λ done. lift reply) s in (last, (registry, s')))
lift_beside registry reply (returned tt) s = refl
lift_beside registry reply (raised exc) s = refl

module _ {I : Type 0} (svcs : Svcs I) (registrars : List (Registrar svcs))
    (serve : Exec (svcs.Registry × LocalDev) Done) (s : svcs.Registry × LocalDev) where
  lifespan_ends :
      let (reply, (registry, served)) = lifespan_body svcs local_dev registrars serve s in
      di_lifespan svcs local_dev registrars serve s
      ≡ (after_task served.task reply, (registry, (shutdown served).1))
  unfolding di_lifespan local_dev on_infrastructure finally_await ◌>>=◌
  lifespan_ends =
      let (reply, (registry, served)) = lifespan_body svcs local_dev registrars serve s in
      lift_beside registry reply (shutdown served).0 (shutdown served).1
      ∙ ap (λ (end : Outcome Done × LocalDev). (end.0, (registry, end.1)))
          (shutdown_replies reply served served.task refl)

  -- Whatever the lifespan registrars and the application do to the registry and to the local
  -- setup, and whether they return or raise, `di_lifespan` ends with the shutdown on the state
  -- that they leave: the consumer takes no runs any more, its task is not active, the stored
  -- runs, the events and the registry are as they were, and any further rounds of the
  -- consumption loop change nothing. The signal event is set, but for a loop that was waiting
  -- for it, whose wait clears it. A consumer that was in its executor, or that had no execution
  -- context and no heartbeat task, is left with neither, and one that was leaving its lease has
  -- no heartbeat task. The outcome is that of the registrars and the application, or the
  -- exception of a consumption loop that had ended with one or was leaving its lease with one.
  pub lifespan_stops_consumer :
      let (reply, (registry, served)) = lifespan_body svcs local_dev registrars serve s in
      let (last, (registry', stopped)) = di_lifespan svcs local_dev registrars serve s in
      (registry' ≡ registry)
      × (last ≡ after_task served.task reply)
      × IsStopped served stopped
      × ((policy : RunTransitionPolicy) (worker_id : String) (rounds : List Round)
          → consume_and_execute_loop policy worker_id rounds stopped.consumer
            ≡ (returned tt, stopped.consumer))
  lifespan_stops_consumer =
      let served = (lifespan_body svcs local_dev registrars serve s).1.1 in
      let is_stopped = shutdown-IsStopped served in
      rw lifespan_ends (
        refl,
        refl,
        is_stopped,
        λ policy worker_id rounds. loop_refuses policy worker_id rounds _ is_stopped.refuses,
      )
