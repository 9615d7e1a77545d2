-- ===== src/Worker/Lease.antt =====
-- llm_agent/agent_run_worker/in_memory/run_lease.py: `RunLeaseScope`.
use python_agent_with_idp.Prelude.{
  ◌≡◌, refl, String, Bool, true, false, not, ◌&&◌, ◌⊎◌, if◌then◌else◌, Bool-cases, inl, inr, arith,
  ◌||◌, is_some,
}
use python_agent_with_idp.Run.Status.{Uuid, RunStatus}
use python_agent_with_idp.Error.{Exception, run_lease_lost}
use python_agent_with_idp.Exec.{Outcome, returned, raised}
use python_agent_with_idp.Processing
use python_agent_with_idp.Runtime.{InMemoryRuntime}
use python_agent_with_idp.Worker.{current_is_cancelled, Worker, on_runtime, cancel_current}

-- __aenter__
unfoldable pub enter : Worker → Worker
enter w = record w { lease_running = true; heartbeat_task = true }

-- __aexit__: the task is cancelled and awaited
unfoldable pub exit : Worker → Worker
exit w = record w { lease_running = false; heartbeat_task = false }

-- `break` ends the task.
abbrev end_task : Worker → Worker
end_task w = record w { heartbeat_task = false }

-- isinstance(exc, RunLeaseLostError)
abbrev is_lease_lost : Exception → Bool
is_lease_lost (run_lease_lost run_id worker_id) = true
is_lease_lost _ = false

pub after_heartbeat : Outcome RunStatus → Worker → Worker
unfolding cancel_current
after_heartbeat (returned run_status) w =
    if run_status.cancel_requested then end_task (cancel_current w) else w
after_heartbeat (raised exc) w = if is_lease_lost exc then end_task w else w

-- The body of `heartbeat_loop`, from the end of its sleep on. It catches all that `heartbeat` raises.
unfoldable pub beat : Uuid → String → Worker → Worker
unfolding after_heartbeat on_runtime
beat run_id worker_id w =
    if not w.heartbeat_task
    then w
    else if not w.lease_running
    then end_task w
    else let (reply, w') = on_runtime (Processing.heartbeat run_id worker_id) w in
      after_heartbeat reply w'

after_heartbeat_runtime :
    (reply : Outcome RunStatus) (w : Worker) → (after_heartbeat reply w).runtime ≡ w.runtime
unfolding after_heartbeat cancel_current
after_heartbeat_runtime reply w = ground arith

-- What a round of the loop does to the runtime.
pub beat_runtime :
    (run_id : Uuid) (worker_id : String) (w : Worker)
    → (beat run_id worker_id w).runtime ≡ (
        if w.heartbeat_task && w.lease_running
        then (Processing.heartbeat run_id worker_id w.runtime).1
        else w.runtime)
unfolding beat on_runtime
beat_runtime run_id worker_id w = elim (Bool-cases w.heartbeat_task) [
  | inl alive ↦ elim (Bool-cases w.lease_running) [
    | inl running ↦ rw (alive, running) (after_heartbeat_runtime _ _)
    | inr left ↦ rw (alive, left) refl
  ]
  | inr ended ↦ rw ended refl
]

-- The context is left as it is, or cancelled.
after_heartbeat_context :
    (reply : Outcome RunStatus) (w : Worker)
    → ((after_heartbeat reply w).current_run_execution_ctx ≡ w.current_run_execution_ctx)
      ⊎ ((after_heartbeat reply w).current_run_execution_ctx
          ≡ (cancel_current w).current_run_execution_ctx)
unfolding after_heartbeat
after_heartbeat_context (raised exc) w = elim (Bool-cases (is_lease_lost exc)) [
  | inl lost ↦ inl (rw lost refl)
  | inr other ↦ inl (rw other refl)
]
after_heartbeat_context (returned run_status) w = elim (Bool-cases run_status.cancel_requested) [
  | inl asked ↦ inr (rw asked refl)
  | inr wanted ↦ inl (rw wanted refl)
]

pub beat_context :
    (run_id : Uuid) (worker_id : String) (w : Worker)
    → ((beat run_id worker_id w).current_run_execution_ctx ≡ w.current_run_execution_ctx)
      ⊎ ((beat run_id worker_id w).current_run_execution_ctx
          ≡ (cancel_current w).current_run_execution_ctx)
unfolding beat on_runtime cancel_current
beat_context run_id worker_id w = elim (Bool-cases w.heartbeat_task) [
  | inl alive ↦ elim (Bool-cases w.lease_running) [
    | inl running ↦ rw (alive, running) (after_heartbeat_context _ _)
    | inr left ↦ inl (rw (alive, left) refl)
  ]
  | inr ended ↦ inl (rw ended refl)
]

-- What the reply of the store does to the worker.
pub after_heartbeat_seen :
    (run_status : RunStatus) (w : Worker)
    → let w' = after_heartbeat (returned run_status) w in
      (w'.runtime ≡ w.runtime)
      × (current_is_cancelled w' ≡ (
          current_is_cancelled w
          || (run_status.cancel_requested && is_some w.current_run_execution_ctx)))
      × (w'.heartbeat_task ≡ (w.heartbeat_task && not run_status.cancel_requested))
unfolding after_heartbeat cancel_current current_is_cancelled
after_heartbeat_seen run_status w = ground arith

-- The round in which the store replies.
pub beat_returned :
    (run_id : Uuid) (worker_id : String) (w : Worker) (run_status : RunStatus) (s : InMemoryRuntime)
    → w.heartbeat_task ≡ true
    → w.lease_running ≡ true
    → Processing.heartbeat run_id worker_id w.runtime ≡ (returned run_status, s)
    → beat run_id worker_id w ≡ after_heartbeat (returned run_status) (record w { runtime = s })
unfolding beat on_runtime
beat_returned run_id worker_id w run_status s alive leasing e = rw (alive, leasing, e) refl
