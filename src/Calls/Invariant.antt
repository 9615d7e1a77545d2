-- ===== src/Calls/Invariant.antt =====
-- How an invariant of the runtime is shown to be kept by histories: it is asked of the steps of
-- the life cycle, the creation of runs, events, readings of the clock and signals.
use python_agent_with_idp.Prelude.{◌≡◌, some, List, [], ◌∷◌, All, String}
use python_agent_with_idp.Dict
use python_agent_with_idp.Run.Status.{Uuid, RunStatus, RunRequest}
use python_agent_with_idp.Exec.Leads.{Keeps, keeps_rules, Keeps-if, Keeps-bind, Keeps-return}
use python_agent_with_idp.Runtime.{InMemoryRuntime}
use python_agent_with_idp.Writes.{write, IsPassive}
use python_agent_with_idp.Lifecycle.{WorkerStep, IntakeStep}
use python_agent_with_idp.Intake
use python_agent_with_idp.Policy.{default_policy}
use python_agent_with_idp.Orchestrator
use python_agent_with_idp.Conformance.Claim.{claim_run-Keeps}
use python_agent_with_idp.Conformance.Worker.{
  heartbeat-Keeps, set_failed-Keeps, set_succeeded-Keeps, set_cancelled-Keeps,
  processing_get_status-Keeps,
}
use python_agent_with_idp.Conformance.Intake.{
  get_status-Keeps, get_events-Keeps, mark_enqueued-Keeps, mark_cancelled-Keeps,
  request_cancellation-Keeps,
}
use python_agent_with_idp.Calls.{
  Call, submit, get_run, cancel_run, list_events, create_run, mark_enqueued, mark_cancelled,
  request_cancellation, claim_run, heartbeat, set_failed, set_succeeded, set_cancelled, get_status,
  emit_event, OnNew, perform, perform_all,
}

module _ (P : InMemoryRuntime → Type 0) (F : Uuid → Type 0) (passive : IsPassive P)
    (closed_worker : (s : InMemoryRuntime) (run_id : Uuid) (cur new : RunStatus)
      → P s
      → Dict.get s.internal_run_storage run_id ≡ some cur
      → WorkerStep cur new
      → P (write s run_id new))
    (closed_intake : (s : InMemoryRuntime) (run_id : Uuid) (cur new : RunStatus)
      → P s
      → Dict.get s.internal_run_storage run_id ≡ some cur
      → IntakeStep cur new
      → P (write s run_id new))
    (creates : (run_id : Uuid) (request : RunRequest)
      → F run_id
      → Keeps P (Intake.create_run run_id request)) where
  submit-Keeps :
      (run_id : Uuid) (prompt : String)
      → F run_id
      → Keeps P (Orchestrator.create_run default_policy run_id prompt)
  unfolding Orchestrator.create_run
  submit-Keeps run_id prompt f = Keeps-bind _ _ (creates run_id _ f) (λ run.
      Keeps-bind _ _ (mark_enqueued-Keeps P passive closed_intake run.id)
        (λ _. Keeps-bind _ _ passive.notifies (λ _. Keeps-return run)))

  cancel_run-Keeps : (run_id : Uuid) → Keeps P (Orchestrator.cancel_run run_id)
  unfolding Orchestrator.cancel_run
  cancel_run-Keeps run_id =
      Keeps-bind _ _ (request_cancellation-Keeps P passive closed_intake run_id) (λ done.
        Keeps-if done _ _ (Keeps-bind _ _ passive.notifies (λ _. Keeps-return done))
          (Keeps-return done))

  get_run-Keeps : (run_id : Uuid) → Keeps P (Orchestrator.get_run run_id)
  unfolding Orchestrator.get_run
  get_run-Keeps run_id = search (keeps_rules, get_status-Keeps P)

  pub perform_keeps : (call : Call) (s : InMemoryRuntime) → OnNew F call → P s → P (perform call s)
  unfolding perform Orchestrator.get_events
  perform_keeps (submit run_id prompt) s f h = (submit-Keeps run_id prompt f).after s h
  perform_keeps (get_run run_id) s f h = (get_run-Keeps run_id).after s h
  perform_keeps (cancel_run run_id) s f h = (cancel_run-Keeps run_id).after s h
  perform_keeps (list_events run_id after) s f h = (get_events-Keeps P run_id after).after s h
  perform_keeps (create_run run_id request) s f h = (creates run_id request f).after s h
  perform_keeps (mark_enqueued run_id) s f h =
      (mark_enqueued-Keeps P passive closed_intake run_id).after s h
  perform_keeps (mark_cancelled run_id) s f h =
      (mark_cancelled-Keeps P passive closed_intake run_id).after s h
  perform_keeps (request_cancellation run_id) s f h =
      (request_cancellation-Keeps P passive closed_intake run_id).after s h
  perform_keeps (claim_run worker_id) s f h =
      (claim_run-Keeps P passive closed_worker worker_id).after s h
  perform_keeps (heartbeat run_id worker_id) s f h =
      (heartbeat-Keeps P passive closed_worker run_id worker_id).after s h
  perform_keeps (set_failed run_id error) s f h =
      (set_failed-Keeps P passive closed_worker run_id error).after s h
  perform_keeps (set_succeeded run_id result) s f h =
      (set_succeeded-Keeps P passive closed_worker run_id result).after s h
  perform_keeps (set_cancelled run_id) s f h =
      (set_cancelled-Keeps P passive closed_worker run_id).after s h
  perform_keeps (get_status run_id) s f h = (processing_get_status-Keeps P run_id).after s h
  perform_keeps (emit_event run_id event_type payload) s f h =
      (passive.appends run_id event_type payload).after s h

  pub perform_all_keeps :
      (calls : List Call) (s : InMemoryRuntime)
      → All (OnNew F) calls
      → P s
      → P (perform_all calls s)
  unfolding perform_all
  perform_all_keeps [] s f h = h
  perform_all_keeps (call ∷ calls) s f h =
      perform_all_keeps calls (perform call s) f.1 (perform_keeps call s f.0 h)
