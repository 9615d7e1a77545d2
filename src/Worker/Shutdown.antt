-- ===== src/Worker/Shutdown.antt =====
-- What a shutdown during an execution does to the run.
use python_agent_with_idp.Prelude.{
  ◌≡◌, refl, ap, subst, String, Bool, true, false, Option, none, some, List, [], ◌∷◌, ◌++◌, ◌⊎◌,
  inl, inr, All, arith, is_some,
}
use python_agent_with_idp.Dict
use python_agent_with_idp.Run.Code.{running, cancelled}
use python_agent_with_idp.Run.Status.{Uuid, RunStatus}
use python_agent_with_idp.Exec.{Outcome, returned, ◌>>=◌}
use python_agent_with_idp.Policy.{default_policy}
use python_agent_with_idp.Calls.Sound.{IsSound, any_new}
use python_agent_with_idp.Worker.{
  Worker, RunExecutionContext, is_cancelled, current_is_cancelled, cancel_current,
}
use python_agent_with_idp.Worker.Lease.{beat, beat_context}
use python_agent_with_idp.Worker.Executor.{
  Activity, elsewhere, heartbeat, shutdown, act, sleep, shutdown_execution, dummy_execute,
}
use python_agent_with_idp.Worker.Consumer.{execute_run}
use python_agent_with_idp.Worker.Settled.{WorkerEnds, event_of, settled, execute_run-settled}
use python_agent_with_idp.Worker.Sound.{OnNewIn, sleep-Keeps}
use python_agent_with_idp.Worker.History.{Anyone, IsSound-IsKept}

-- Whether there is a context, and whether it is cancelled: what of it can change.
abbrev IsExecuting : Worker → Type 0
IsExecuting w = is_some w.current_run_execution_ctx ≡ true

abbrev IsCancelled : Worker → Type 0
IsCancelled w = current_is_cancelled w ≡ true

IsCancelled-by :
    (w w' : Worker)
    → (w'.current_run_execution_ctx ≡ w.current_run_execution_ctx)
      ⊎ (w'.current_run_execution_ctx ≡ (cancel_current w).current_run_execution_ctx)
    → (IsExecuting w → IsExecuting w') × (IsCancelled w → IsCancelled w')
unfolding cancel_current current_is_cancelled
IsCancelled-by w w' h = ground arith

act_keeps :
    (worker_id : String) (a : Activity) (w : Worker)
    → (IsExecuting w → IsExecuting (act worker_id a w))
      × (IsCancelled w → IsCancelled (act worker_id a w))
unfolding act shutdown_execution
act_keeps worker_id (elsewhere call) w =
    IsCancelled-by w (act worker_id (elsewhere call) w) (inl refl)
act_keeps worker_id (heartbeat run_id) w =
    IsCancelled-by w (beat run_id worker_id w) (beat_context run_id worker_id w)
act_keeps worker_id shutdown w = IsCancelled-by w (shutdown_execution w) (inr refl)

sleep_keeps :
    (worker_id : String) (activities : List Activity) (w : Worker)
    → (IsExecuting w → IsExecuting (sleep worker_id activities w))
      × (IsCancelled w → IsCancelled (sleep worker_id activities w))
unfolding sleep
sleep_keeps worker_id [] w = (λ h. h, λ h. h)
sleep_keeps worker_id (a ∷ activities) w =
    let (e, c) = act_keeps worker_id a w in
    let (e', c') = sleep_keeps worker_id activities (act worker_id a w) in
    (λ h. e' (e h), λ h. c' (c h))

shutdown_cancels : (w : Worker) → IsExecuting w → IsCancelled (shutdown_execution w)
unfolding shutdown_execution cancel_current current_is_cancelled
shutdown_cancels w h = ground arith

sleep_cancels :
    (worker_id : String) (before later : List Activity) (w : Worker)
    → IsExecuting w
    → IsCancelled (sleep worker_id (before ++ shutdown ∷ later) w)
unfolding sleep
sleep_cancels worker_id [] later w h =
    (sleep_keeps worker_id later (shutdown_execution w)).1 (shutdown_cancels w h)
sleep_cancels worker_id (a ∷ before) later w h =
    sleep_cancels worker_id before later (act worker_id a w) ((act_keeps worker_id a w).0 h)

any_activity : (activities : List Activity) → All (OnNewIn Anyone) activities
any_activity [] = tt
any_activity (elsewhere call ∷ activities) = (any_new call, any_activity activities)
any_activity (heartbeat run_id ∷ activities) = (tt, any_activity activities)
any_activity (shutdown ∷ activities) = (tt, any_activity activities)

event_of_current :
    (ctx : Option RunExecutionContext) (w : Worker)
    → w.current_run_execution_ctx ≡ ctx
    → IsCancelled w
    → event_of w.current_run_execution_ctx ≡ returned true
unfolding current_is_cancelled is_cancelled
event_of_current none w e h = absurd (cc)
event_of_current (some ctx) w e h = rw e (ap returned (rw e at h))

by_request :
    (seen : Outcome Bool) (st : RunStatus)
    → seen ≡ returned true
    → settled (returned tt) seen st ≡ record st { status = cancelled }
by_request seen st e = rw e refl

-- A worker that is shut down while the single-step executor sleeps on a run leaves the run
-- CANCELLED, if the run is still running when the step ends: from a sound state, with a context
-- that is not cancelled at the start, whatever else happens during the step before the shutdown
-- and after it.
pub shutdown_cancels_run :
    (worker_id : String) (before later : List Activity) (w : Worker) (run_id : Uuid)
    (st : RunStatus)
    → IsSound w.runtime
    → IsExecuting w
    → current_is_cancelled w ≡ false
    → Dict.get (sleep worker_id (before ++ shutdown ∷ later) w).runtime.internal_run_storage run_id
      ≡ some st
    → st.status ≡ running
    → WorkerEnds run_id
        (record st { status = cancelled })
        (execute_run default_policy (dummy_execute worker_id (before ++ shutdown ∷ later)) run_id w)
unfolding dummy_execute ◌>>=◌
shutdown_cancels_run worker_id before later w run_id st sound executing going g is_running =
    let activities = before ++ shutdown ∷ later in
    let slept = sleep worker_id activities w in
    let ended =
      execute_run-settled (dummy_execute worker_id activities) w slept (returned tt) run_id st
        (rw going refl)
        (sleep-Keeps Anyone IsSound IsSound-IsKept worker_id activities w (any_activity activities)
          sound)
        g is_running in
    subst
      (λ st'.
        WorkerEnds run_id st'
          (execute_run default_policy (dummy_execute worker_id activities) run_id w))
      (by_request _ st
        (event_of_current _ slept refl (sleep_cancels worker_id before later w executing)))
      ended
