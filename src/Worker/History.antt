-- ===== src/Worker/History.antt =====
-- The consumer loop in the terms of the life cycle and of the soundness of the runtime.
use python_agent_with_idp.Prelude.{◌≡◌, ◌≢◌, sym, subst, String, some, List, All}
use python_agent_with_idp.Dict
use python_agent_with_idp.Run.Status.{Uuid, RunStatus}
use python_agent_with_idp.Policy.{default_policy}
use python_agent_with_idp.Lifecycle.{◌⟶*◌, here}
use python_agent_with_idp.Calls.Sound.{IsSound, IsSound-performs}
use python_agent_with_idp.Calls.Follows.{Follows, Follows-performs, found_after, FollowsFrom}
use python_agent_with_idp.Writes.{OnRuns}
use python_agent_with_idp.Worker.{Worker}
use python_agent_with_idp.Worker.Consumer.{Round, consume_and_execute_loop}
use python_agent_with_idp.Worker.Sound.{IsKept, RoundKeeps, consume_loop-Keeps}

abbrev pub Anyone : Uuid → Type 0
Anyone new = Unit

pub IsSound-IsKept : IsKept Anyone IsSound
IsSound-IsKept = record {
  performs = λ call s _ h. IsSound-performs call s h;
  signals = λ queue s h. record { runs = h.runs; streams = h.streams; ordered = h.ordered };
}

pub Follows-IsKept :
    (run_id : Uuid) (st : RunStatus) → IsKept (λ new. new ≢ run_id) (OnRuns (Follows run_id st))
Follows-IsKept run_id st = record {
  performs = λ call s f h. Follows-performs run_id st call s f h;
  signals = λ queue s h. h;
}

-- A sound runtime is sound after any number of rounds of the consumer loop, with any activities
-- of others in between, if the executors keep it sound.
pub consume_loop-IsSound :
    (worker_id : String) (rounds : List Round) (w : Worker)
    → All (RoundKeeps Anyone IsSound IsSound-IsKept) rounds
    → IsSound w.runtime
    → IsSound (consume_and_execute_loop default_policy worker_id rounds w).1.runtime
consume_loop-IsSound worker_id rounds w ok h =
    (consume_loop-Keeps Anyone IsSound IsSound-IsKept worker_id rounds ok).after w h

-- For any number of rounds of the consumer loop: a stored run stays stored and has moved by steps
-- of the life cycle alone, if no activity of others generates its UUID again and the executors
-- move it by such steps too.
pub consume_loop_follows_life_cycle :
    (worker_id : String) (rounds : List Round) (w : Worker) (run_id : Uuid) (st : RunStatus)
    → All
        (RoundKeeps (λ new. new ≢ run_id) (OnRuns (Follows run_id st)) (Follows-IsKept run_id st))
        rounds
    → Dict.get w.runtime.internal_run_storage run_id ≡ some st
    → (st' : RunStatus) × (Dict.get
          (consume_and_execute_loop default_policy worker_id rounds
            w).1.runtime.internal_run_storage
          run_id
        ≡ some st')
      × (st ⟶* st')
consume_loop_follows_life_cycle worker_id rounds w run_id st ok g = found_after st _ (
    (consume_loop-Keeps _ _ (Follows-IsKept run_id st) worker_id rounds ok).after w
      (subst (FollowsFrom st) (sym g) here))
