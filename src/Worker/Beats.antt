-- ===== src/Worker/Beats.antt =====
-- A round of the heartbeat loop, while its worker owns the run.
use python_agent_with_idp.Prelude.{◌≡◌, ap, ◌∙◌, String, true, not, ◌&&◌, ◌||◌, some, is_some}
use python_agent_with_idp.Dict
use python_agent_with_idp.Dict.Laws.{get-put_self}
use python_agent_with_idp.Run.Code.{running}
use python_agent_with_idp.Run.Status.{Uuid, RunStatus}
use python_agent_with_idp.Runtime.{InMemoryRuntime, read_clock}
use python_agent_with_idp.Writes.{write}
use python_agent_with_idp.Calls.Sound.{IsSound}
use python_agent_with_idp.Claiming.Heartbeat.{renewed, heartbeat_owner}
use python_agent_with_idp.Worker.{Worker, current_is_cancelled}
use python_agent_with_idp.Worker.Lease.{beat, after_heartbeat_seen, beat_returned}

-- A round of a live heartbeat task, in a sound state, whose worker owns its stored, running run:
-- the lease is renewed by thirty seconds from the reading of the clock and nothing else of the
-- run changes. If the run was asked to be cancelled, then the worker's context is cancelled and
-- the task ends, otherwise the context is left as it was and the task goes on.
pub beat_exact :
    (run_id : Uuid) (worker_id : String) (w : Worker) (st : RunStatus)
    → IsSound w.runtime
    → Dict.get w.runtime.internal_run_storage run_id ≡ some st
    → st.status ≡ running
    → st.claimed_worker ≡ some worker_id
    → w.heartbeat_task ≡ true
    → w.lease_running ≡ true
    → let w' = beat run_id worker_id w in
      (Dict.get w'.runtime.internal_run_storage run_id ≡ some (renewed st (w.runtime.clock 0)))
      × (current_is_cancelled w' ≡ (
          current_is_cancelled w || (st.cancel_requested && is_some w.current_run_execution_ctx)))
      × (w'.heartbeat_task ≡ not st.cancel_requested)
unfolding current_is_cancelled
beat_exact run_id worker_id w st sound g is_running owner alive leasing =
    let now = w.runtime.clock 0 in
    let written = write (read_clock w.runtime).1 run_id (renewed st now) in
    let (kept, seen, task) =
      after_heartbeat_seen (renewed st now) (record w { runtime = written }) in
    rw
      (beat_returned run_id worker_id w (renewed st now) written alive leasing
        (heartbeat_owner w.runtime run_id worker_id st sound g is_running owner))
      (
        ap (λ (s : InMemoryRuntime). Dict.get s.internal_run_storage run_id) kept
            ∙ get-put_self (read_clock w.runtime).1.internal_run_storage run_id (renewed st now),
        seen,
        task ∙ ap (λ b. b && not st.cancel_requested) alive,
      )
