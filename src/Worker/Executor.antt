-- ===== src/Worker/Executor.antt =====
-- llm_agent/agent_run_worker/in_memory/run_executor.py, and what happens while a task sleeps.
use python_agent_with_idp.Prelude.{ℕ, zero, suc, String, Bool, false, List, [], ◌∷◌, if◌then◌else◌}
use python_agent_with_idp.Run.Status.{Uuid}
use python_agent_with_idp.Exec.{Done, Exec, return, gets, modify, ◌>>=◌, ◌>>◌}
use python_agent_with_idp.Calls.{Call, perform}
use python_agent_with_idp.SignalQueue
use python_agent_with_idp.Worker.{Worker, cancel_current, current_is_cancelled}
use python_agent_with_idp.Worker.Lease.{beat}

-- `shutdown_execution` of consumer.py.
unfoldable pub shutdown_execution : Worker → Worker
unfolding cancel_current SignalQueue.notify
shutdown_execution w =
    let stopped = cancel_current (record w { execution_allowed = false }) in
    record stopped {
      runtime = record stopped.runtime {
        run_signal_queue = SignalQueue.notify stopped.runtime.run_signal_queue;
      };
    }

-- What another task does while this one is suspended: a call of the API or of another worker, a
-- heartbeat for the run `run_id` of this worker, or a request to shut the worker down.
pub data Activity : Type 0 where
  elsewhere : Call → Activity
  heartbeat : Uuid → Activity
  shutdown : Activity

unfoldable pub act : String → Activity → Worker → Worker
act worker_id (elsewhere call) w = record w { runtime = perform call w.runtime }
act worker_id (heartbeat run_id) w = beat run_id worker_id w
act worker_id shutdown w = shutdown_execution w

-- The activities during one sleep, in their order.
unfoldable pub sleep : String → List Activity → Worker → Worker
unfolding act
sleep worker_id [] w = w
sleep worker_id (a ∷ activities) w = sleep worker_id activities (act worker_id a w)

-- One asyncio.sleep: what happens meanwhile, and whether the task is cancelled before it is over.
pub record Sleep : Type 0 where
  pub activities : List Activity
  pub interrupted : Bool

-- How an executor ends: it returns, or it raises asyncio.CancelledError.
pub data Stop : Type 0 where
  completed : Stop
  cancelled_error : Stop

-- The loop of RandomSleepRunExecutor: `steps` are left, the next is number `i`, and `during i` is
-- the sleep of step `i`.
unfoldable pub sleep_steps : String → (ℕ → Sleep) → ℕ → ℕ → Exec Worker Stop
sleep_steps worker_id during zero i = return completed
sleep_steps worker_id during (suc steps) i = do
  is_cancelled ← gets current_is_cancelled
  let rest = sleep_steps worker_id during steps (suc i)
  if is_cancelled then return completed else do
    modify (sleep worker_id (during i).activities)
    if (during i).interrupted then return cancelled_error else rest

unfoldable pub random_sleep_execute : String → (ℕ → Sleep) → Exec Worker Stop
random_sleep_execute worker_id during = sleep_steps worker_id during 5 0

-- DummyRunExecutor, in a task that is not cancelled
unfoldable pub dummy_execute : String → List Activity → Exec Worker Done
dummy_execute worker_id during = do
  is_cancelled ← gets current_is_cancelled
  if is_cancelled then return tt else modify (sleep worker_id during)
