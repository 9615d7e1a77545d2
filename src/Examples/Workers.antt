-- ===== src/Examples/Workers.antt =====
-- The theorems on the worker, at the concrete runs.
use python_agent_with_idp.Prelude.{
  ℕ, zero, suc, ◌≡◌, refl, true, false, some, List, [], ◌∷◌, ◌++◌, All, not, ◌&&◌, ◌||◌, is_some,
}
use python_agent_with_idp.Dict
use python_agent_with_idp.Dict.Laws.{get-put_self}
use python_agent_with_idp.Run.Code.{failed, cancelled, member}
use python_agent_with_idp.Run.Status.{Uuid, RunStatus}
use python_agent_with_idp.Error.{invalid_transition}
use python_agent_with_idp.Exec.{returned, raised, return, Done, Exec, ◌>>=◌}
use python_agent_with_idp.Policy.{default_policy}
use python_agent_with_idp.Lifecycle.{◌⟶*◌}
use python_agent_with_idp.Writes.{write}
use python_agent_with_idp.Calls
use python_agent_with_idp.Calls.Sound.{IsSound}
use python_agent_with_idp.Worker.{Worker, new_worker, new_context, current_is_cancelled}
use python_agent_with_idp.Worker.Executor.{
  Activity, elsewhere, heartbeat, shutdown, random_sleep_execute, dummy_execute, sleep, Sleep, Stop,
  shutdown_execution,
}
use python_agent_with_idp.Worker.Consumer.{
  Round, execute_run, consume_and_execute_loop, forget_context,
}
use python_agent_with_idp.Worker.Settled.{
  WorkerEnds, event_of, settled, execute_run-settled, execute_run-terminal,
}
use python_agent_with_idp.Worker.Checkpoints.{
  slept, StopsAfter, random_sleep_execute-StopsAfter, random_sleep_execute-Keeps,
}
use python_agent_with_idp.Worker.Sound.{IsKept, OnNewIn, OfRuntime}
use python_agent_with_idp.Exec.Leads.{Keeps, Keeps-bind, Keeps-return}
use python_agent_with_idp.Runtime.{InMemoryRuntime}
use python_agent_with_idp.Worker.History.{
  Anyone, IsSound-IsKept, Follows-IsKept, consume_loop-IsSound, consume_loop_follows_life_cycle,
}
use python_agent_with_idp.Claiming.Heartbeat.{renewed}
use python_agent_with_idp.Worker.Lease.{beat}
use python_agent_with_idp.Worker.Beats.{beat_exact}
use python_agent_with_idp.Worker.Shutdown.{shutdown_cancels_run}
use python_agent_with_idp.Examples.{
  queued, queued_run, queued-IsSound, queued_stored, claimed, claimed_run, claimed-IsSound,
  claimed_stored,
}

-- The worker "w1" while it executes the run.
abbrev executing : Worker
executing = record (new_worker claimed) {
  current_run_execution_ctx = some (new_context 7);
  lease_running = true;
  heartbeat_task = true;
}

-- A client asks for a cancellation in the second step, and the heartbeat sees it in the third.
abbrev meanwhile : ℕ → List Activity
meanwhile zero = []
meanwhile (suc zero) = elsewhere (Calls.cancel_run 7) ∷ []
meanwhile (suc (suc zero)) = heartbeat 7 ∷ []
meanwhile _ = []

abbrev during : ℕ → Sleep
during i = record { activities = meanwhile i; interrupted = false }

-- The executor of a task that is not cancelled.
abbrev execute : Exec Worker Done
execute = random_sleep_execute "w1" during >>= λ stop. return tt

nothing_new : (F : Uuid → Type 0) (j : ℕ) → All (OnNewIn F) (during j).activities
nothing_new F zero = tt
nothing_new F (suc zero) = (tt, tt)
nothing_new F (suc (suc zero)) = (tt, tt)
nothing_new F (suc (suc (suc j))) = tt

executor-Keeps :
    (F : Uuid → Type 0) (P : InMemoryRuntime → Type 0) (kept : IsKept F P) (run_id : Uuid)
    → Keeps (OfRuntime P) execute
executor-Keeps F P kept run_id =
    Keeps-bind _ _ (random_sleep_execute-Keeps F P kept "w1" during (nothing_new F))
      (λ stop. Keeps-return tt)

execute_run-settled_example :
    WorkerEnds 7
      (settled (returned tt) (event_of executing.current_run_execution_ctx) claimed_run)
      (execute_run default_policy (return tt) 7 executing)
execute_run-settled_example =
    execute_run-settled (return tt) executing executing (returned tt) 7 claimed_run refl
      claimed-IsSound claimed_stored refl

abbrev failed_run : RunStatus
failed_run = record claimed_run { status = failed }

abbrev after_failure : Worker
after_failure = record executing { runtime = write claimed 7 failed_run }

execute_run-terminal_example :
    execute_run default_policy (return tt) 7 after_failure
    ≡ (raised (invalid_transition failed failed), forget_context after_failure)
unfolding member
execute_run-terminal_example =
    execute_run-terminal (return tt) after_failure after_failure (returned tt) 7 failed_run refl
      (get-put_self claimed.internal_run_storage 7 failed_run) refl

-- The task is cancelled in the first step.
abbrev broken : ℕ → Sleep
broken i = record { activities = []; interrupted = true }

random_sleep_execute-StopsAfter_example :
    (k : ℕ) × (stop : Stop) × StopsAfter "w1" broken 5 0 k executing stop
    × (random_sleep_execute "w1" broken executing
        ≡ (returned stop, slept "w1" broken 0 k executing))
random_sleep_execute-StopsAfter_example = random_sleep_execute-StopsAfter "w1" broken executing

shutdown_cancels_run_example :
    WorkerEnds 7
      (record claimed_run { status = cancelled })
      (execute_run default_policy (dummy_execute "w1" ([] ++ shutdown ∷ [])) 7 executing)
unfolding sleep current_is_cancelled shutdown_execution Dict.put
shutdown_cancels_run_example =
    shutdown_cancels_run "w1" [] [] executing 7 claimed_run claimed-IsSound refl refl claimed_stored
      refl

-- A worker that finds the run queued.
abbrev rounds : List Round
rounds = (elsewhere (Calls.get_run 7) ∷ [], λ run_id. execute) ∷ ([], λ run_id. execute) ∷ []

consume_loop-IsSound_example :
    IsSound (consume_and_execute_loop default_policy "w1" rounds (new_worker queued)).1.runtime
consume_loop-IsSound_example =
    consume_loop-IsSound "w1" rounds (new_worker queued)
      (
        ((tt, tt), executor-Keeps Anyone IsSound IsSound-IsKept),
        ((tt, executor-Keeps Anyone IsSound IsSound-IsKept), tt),
      )
      queued-IsSound

consume_loop_follows_life_cycle_example :
    (st' : RunStatus) × (Dict.get
        (consume_and_execute_loop default_policy "w1" rounds
          (new_worker queued)).1.runtime.internal_run_storage
        7
      ≡ some st')
    × (queued_run ⟶* st')
consume_loop_follows_life_cycle_example =
    consume_loop_follows_life_cycle "w1" rounds (new_worker queued) 7 queued_run
      (
        ((tt, tt), executor-Keeps _ _ (Follows-IsKept 7 queued_run)),
        ((tt, executor-Keeps _ _ (Follows-IsKept 7 queued_run)), tt),
      )
      queued_stored

beat_exact_example :
    let w' = beat 7 "w1" executing in
    (Dict.get w'.runtime.internal_run_storage 7
      ≡ some (renewed claimed_run (executing.runtime.clock 0)))
    × (current_is_cancelled w' ≡ (
        current_is_cancelled executing
        || (claimed_run.cancel_requested && is_some executing.current_run_execution_ctx)))
    × (w'.heartbeat_task ≡ not claimed_run.cancel_requested)
beat_exact_example =
    beat_exact 7 "w1" executing claimed_run claimed-IsSound claimed_stored refl refl refl refl
