-- ===== src/Worker/Sound.antt =====
-- Invariants of the shared runtime, for the consumer loop.
use python_agent_with_idp.Prelude.{
  String, Bool, true, false, not, ◌&&◌, Option, none, some, List, [], ◌∷◌, All, if◌then◌else◌,
}
use python_agent_with_idp.Run.Status.{Uuid, ClaimedRun}
use python_agent_with_idp.Error.{Exception}
use python_agent_with_idp.Exec.{Done, Exec, modify}
use python_agent_with_idp.Exec.Leads.{
  Keeps, Keeps-return, Keeps-gets, Keeps-lift, Keeps-if, Keeps-bind, Keeps-catch, Keeps-finally,
}
use python_agent_with_idp.Policy.{default_policy}
use python_agent_with_idp.Runtime.{InMemoryRuntime}
use python_agent_with_idp.SignalQueue.{SignalQueue}
use python_agent_with_idp.Calls
use python_agent_with_idp.Calls.{Call, OnNew, perform}
use python_agent_with_idp.Processing
use python_agent_with_idp.Worker.{Worker, on_runtime, cancel_current}
use python_agent_with_idp.Worker.Lease.{beat, beat_runtime}
use python_agent_with_idp.Worker.Executor.{
  Activity, elsewhere, heartbeat, shutdown, act, sleep, shutdown_execution,
}
use python_agent_with_idp.Worker.Consumer.{
  seen_cancelled, settle, record_failure, execute_run, execute_leased, execute_claimed,
  consume_once, wait, Round, consume_and_execute_loop,
}

-- A property of the shared runtime, of a worker.
abbrev pub OfRuntime : (InMemoryRuntime → Type 0) → Worker → Type 0
OfRuntime P w = P w.runtime

-- What an invariant of the runtime is asked for: calls keep it, and so do signals.
pub record IsKept (F : Uuid → Type 0) (P : InMemoryRuntime → Type 0) : Type 0 where
  pub performs : (call : Call) (s : InMemoryRuntime) → OnNew F call → P s → P (perform call s)
  pub signals :
      (queue : SignalQueue) (s : InMemoryRuntime) → P s → P (record s { run_signal_queue = queue })

-- `F` holds of the UUID that an activity generates, if it generates one.
abbrev pub OnNewIn : (Uuid → Type 0) → Activity → Type 0
OnNewIn F (elsewhere call) = OnNew F call
OnNewIn F _ = Unit

module _ (F : Uuid → Type 0) (P : InMemoryRuntime → Type 0) (kept : IsKept F P) where
  keeps_if : (b : Bool) (s s' : InMemoryRuntime) → P s → P s' → P (if b then s else s')
  keeps_if true s s' h h' = h
  keeps_if false s s' h h' = h'

  beat-Keeps :
      (run_id : Uuid) (worker_id : String) (w : Worker)
      → OfRuntime P w
      → OfRuntime P (beat run_id worker_id w)
  unfolding perform
  beat-Keeps run_id worker_id w h = rw beat_runtime (
      keeps_if (w.heartbeat_task && w.lease_running) _ _
        (kept.performs (Calls.heartbeat run_id worker_id) w.runtime tt h) h)

  act-Keeps :
      (worker_id : String) (a : Activity) (w : Worker)
      → OnNewIn F a
      → OfRuntime P w
      → OfRuntime P (act worker_id a w)
  unfolding act shutdown_execution cancel_current
  act-Keeps worker_id (elsewhere call) w f h = kept.performs call w.runtime f h
  act-Keeps worker_id (heartbeat run_id) w f h = beat-Keeps run_id worker_id w h
  act-Keeps worker_id shutdown w f h = kept.signals _ w.runtime h

  pub sleep-Keeps :
      (worker_id : String) (activities : List Activity) (w : Worker)
      → All (OnNewIn F) activities
      → OfRuntime P w
      → OfRuntime P (sleep worker_id activities w)
  unfolding sleep
  sleep-Keeps worker_id [] w f h = h
  sleep-Keeps worker_id (a ∷ activities) w f h =
      sleep-Keeps worker_id activities (act worker_id a w) f.1 (act-Keeps worker_id a w f.0 h)

  wait-Keeps :
      (worker_id : String) (activities : List Activity)
      → All (OnNewIn F) activities
      → Keeps (OfRuntime P) (modify (wait worker_id activities))
  unfolding wait
  wait-Keeps worker_id activities f = record {
    after = λ w h. kept.signals _ _ (sleep-Keeps worker_id activities w f h);
  }

  set_cancelled-Keeps :
      (run_id : Uuid)
      → Keeps (OfRuntime P) (on_runtime (Processing.set_cancelled default_policy run_id))
  unfolding on_runtime perform
  set_cancelled-Keeps run_id = record {
    after = λ w h. kept.performs (Calls.set_cancelled run_id) w.runtime tt h;
  }

  settle-Keeps : (run_id : Uuid) → Keeps (OfRuntime P) (settle default_policy run_id)
  unfolding settle on_runtime perform
  settle-Keeps run_id = Keeps-bind _ _ (Keeps-gets _) (λ ctx.
      Keeps-bind _ _ (Keeps-lift (seen_cancelled ctx)) (λ c.
        Keeps-if c _ _ (set_cancelled-Keeps run_id) (
          Keeps-bind _ _
            (record { after = λ w h. kept.performs (Calls.get_status run_id) w.runtime tt h })
            (λ st. Keeps-if st.cancel_requested _ _ (set_cancelled-Keeps run_id) (record {
              after = λ w h. kept.performs (Calls.set_succeeded run_id _) w.runtime tt h;
            })))))

  record_failure-Keeps :
      (run_id : Uuid) (exc : Exception)
      → Keeps (OfRuntime P) (record_failure default_policy run_id exc)
  unfolding record_failure on_runtime perform
  record_failure-Keeps run_id exc = record {
    after = λ w h. kept.performs (Calls.set_failed run_id _) w.runtime tt h;
  }

  execute_run-Keeps :
      (execute : Exec Worker Done) (run_id : Uuid)
      → Keeps (OfRuntime P) execute
      → Keeps (OfRuntime P) (execute_run default_policy execute run_id)
  unfolding execute_run
  execute_run-Keeps execute run_id ke =
      Keeps-finally _ _
        (Keeps-catch _ _ (Keeps-bind _ _ ke (λ _. settle-Keeps run_id))
          (record_failure-Keeps run_id))
        (λ w h. h)

  execute_leased-Keeps :
      (execute : Exec Worker Done) (run_id : Uuid)
      → Keeps (OfRuntime P) execute
      → Keeps (OfRuntime P) (execute_leased default_policy execute run_id)
  unfolding execute_leased
  execute_leased-Keeps execute run_id ke =
      Keeps-bind _ _ (record { after = λ w h. h })
        (λ _.
          Keeps-bind _ _ (record { after = λ w h. h })
            (λ _. Keeps-finally _ _ (execute_run-Keeps execute run_id ke) (λ w h. h)))

  execute_claimed-Keeps :
      (execute : Uuid → Exec Worker Done) (claimed : Option ClaimedRun)
      → ((run_id : Uuid) → Keeps (OfRuntime P) (execute run_id))
      → Keeps (OfRuntime P) (execute_claimed default_policy execute claimed)
  unfolding execute_claimed
  execute_claimed-Keeps execute none ke = Keeps-return true
  execute_claimed-Keeps execute (some claimed) ke =
      Keeps-bind _ _ (Keeps-gets (λ w. w.execution_allowed)) (λ allowed.
        Keeps-if (not allowed) _ _ (Keeps-return false) (
          Keeps-bind _ _ (execute_leased-Keeps (execute claimed.id) claimed.id (ke claimed.id))
            (λ _. Keeps-return true)))

  consume_once-Keeps :
      (worker_id : String) (execute : Uuid → Exec Worker Done)
      → ((run_id : Uuid) → Keeps (OfRuntime P) (execute run_id))
      → Keeps (OfRuntime P) (consume_once default_policy worker_id execute)
  unfolding consume_once on_runtime perform
  consume_once-Keeps worker_id execute ke =
      Keeps-bind _ _
        (Keeps-catch _ _
          (record { after = λ w h. kept.performs (Calls.claim_run worker_id) w.runtime tt h })
          (λ exc. Keeps-return none))
        (λ claimed. execute_claimed-Keeps execute claimed ke)

  -- What a round may contain.
  abbrev pub RoundKeeps : Round → Type 0
  RoundKeeps (activities, execute) =
      All (OnNewIn F) activities × ((run_id : Uuid) → Keeps (OfRuntime P) (execute run_id))

  -- Whatever calls and signals keep is kept by the whole consumer loop, for any number of rounds, any
  -- activities of others and any executors that keep it, exceptions included.
  pub consume_loop-Keeps :
      (worker_id : String) (rounds : List Round)
      → All RoundKeeps rounds
      → Keeps (OfRuntime P) (consume_and_execute_loop default_policy worker_id rounds)
  unfolding consume_and_execute_loop
  consume_loop-Keeps worker_id [] ok = Keeps-return tt
  consume_loop-Keeps worker_id ((activities, execute) ∷ rounds) ok =
      Keeps-bind _ _ (Keeps-gets (λ w. w.execution_allowed)) (λ allowed.
        Keeps-if (not allowed) _ _ (Keeps-return tt) (
          Keeps-bind _ _ (wait-Keeps worker_id activities ok.0.0) (λ _.
            Keeps-bind _ _ (consume_once-Keeps worker_id execute ok.0.1) (λ goes_on.
              Keeps-if goes_on _ _ (consume_loop-Keeps worker_id rounds ok.1) (Keeps-return tt)))))
