-- ===== src/Worker/Consumer.antt =====
-- llm_agent/agent_run_worker/in_memory/consumer.py: `InMemoryConsumer`. The executor is an action
-- on the worker, so that it may do anything an executor can do, what other tasks do meanwhile
-- included.
use python_agent_with_idp.Prelude.{
  String, Bool, true, false, not, Option, none, some, List, [], ◌∷◌, if◌then◌else◌,
}
use python_agent_with_idp.Json.{Fields, end, field, bool}
use python_agent_with_idp.Run.Status.{Uuid, ClaimedRun}
use python_agent_with_idp.Error.{Exception, attribute_error, str_exception}
use python_agent_with_idp.Exec.{
  Outcome, returned, raised, Done, Exec, return, lift, gets, modify, catch, finally, ◌>>=◌, ◌>>◌,
}
use python_agent_with_idp.Policy.{RunTransitionPolicy}
use python_agent_with_idp.Processing
use python_agent_with_idp.SignalQueue
use python_agent_with_idp.Worker.{
  Worker, RunExecutionContext, is_cancelled, new_context, on_runtime,
}
use python_agent_with_idp.Worker.Lease
use python_agent_with_idp.Worker.Executor.{Activity, sleep}

-- {"ok": True}
abbrev pub ok : Fields
ok = field "ok" (bool true) end

-- self._current_run_execution_ctx.is_cancelled(), where the attribute may be None
unfoldable pub seen_cancelled : Option RunExecutionContext → Outcome Bool
unfolding is_cancelled
seen_cancelled none = raised (attribute_error "'NoneType' object has no attribute 'is_cancelled'")
seen_cancelled (some ctx) = returned (is_cancelled ctx)

-- The statements of the `try` that follow the executor. They do not suspend.
unfoldable pub settle : RunTransitionPolicy → Uuid → Exec Worker Done
settle policy run_id = do
  ctx ← gets (λ w. w.current_run_execution_ctx)
  is_cancelled ← lift (seen_cancelled ctx)
  if is_cancelled then on_runtime (Processing.set_cancelled policy run_id) else do
    run_status ← on_runtime (Processing.get_status run_id)
    if run_status.cancel_requested
        then on_runtime (Processing.set_cancelled policy run_id)
        else on_runtime (Processing.set_succeeded policy run_id ok)

-- The `except`.
unfoldable pub record_failure : RunTransitionPolicy → Uuid → Exception → Exec Worker Done
record_failure policy run_id exc =
    on_runtime (Processing.set_failed policy run_id (str_exception exc))

-- The `finally`.
abbrev pub forget_context : Worker → Worker
forget_context w = record w { current_run_execution_ctx = none }

unfoldable pub execute_run : RunTransitionPolicy → Exec Worker Done → Uuid → Exec Worker Done
execute_run policy execute run_id =
    finally (catch (execute >> settle policy run_id) (record_failure policy run_id)) forget_context

-- async with self.run_lease_scope_factory(...): await self.execute_run(...)
unfoldable pub execute_leased : RunTransitionPolicy → Exec Worker Done → Uuid → Exec Worker Done
unfolding Lease.enter Lease.exit
execute_leased policy execute run_id = do
  modify (λ w. record w { current_run_execution_ctx = some (new_context run_id) })
  modify Lease.enter
  finally (execute_run policy execute run_id) Lease.exit

-- What the loop does with a claim; the result tells whether it goes on.
unfoldable pub execute_claimed :
    RunTransitionPolicy → (Uuid → Exec Worker Done) → Option ClaimedRun → Exec Worker Bool
execute_claimed policy execute none = return true
execute_claimed policy execute (some claimed_run) = do
  execution_allowed ← gets (λ w. w.execution_allowed)
  if not execution_allowed
      then return false
      else do execute_leased policy (execute claimed_run.id) claimed_run.id; return true

-- The body of the loop, after `wait` has returned.
unfoldable pub consume_once :
    RunTransitionPolicy → String → (Uuid → Exec Worker Done) → Exec Worker Bool
consume_once policy worker_id execute = do
  claimed_run ← catch (on_runtime (Processing.claim_run policy worker_id)) (λ exc. return none)
  execute_claimed policy execute claimed_run

-- self.run_signal_queue.wait(): others act meanwhile, and the event is cleared at its end
unfoldable pub wait : String → List Activity → Worker → Worker
unfolding SignalQueue.wait
wait worker_id activities w =
    let woken = sleep worker_id activities w in
    record woken {
      runtime = record woken.runtime {
        run_signal_queue = SignalQueue.wait woken.runtime.run_signal_queue;
      };
    }

-- The loop, for as many rounds as are listed: what happens while the worker waits, and what the
-- executor would do with the run that it gets in this round.
abbrev pub Round : Type 0
Round = List Activity × (Uuid → Exec Worker Done)

unfoldable pub consume_and_execute_loop :
    RunTransitionPolicy → String → List Round → Exec Worker Done
consume_and_execute_loop policy worker_id [] = return tt
consume_and_execute_loop policy worker_id ((activities, execute) ∷ rounds) = do
  execution_allowed ← gets (λ w. w.execution_allowed)
  let rest = consume_and_execute_loop policy worker_id rounds
  if not execution_allowed then return tt else do
    modify (wait worker_id activities)
    goes_on ← consume_once policy worker_id execute
    if goes_on then rest else return tt
