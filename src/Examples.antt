-- ===== src/Examples.antt =====
-- Concrete runs of the code: a runtime with one run, before and after a worker has claimed it.
mod Runs
mod Logs
mod Workers
mod Paths
mod Tokens
mod Requests
mod Scripts
mod Setups
use python_agent_with_idp.Prelude.{
  ℕ, ◌*◌, ◌≡◌, refl, sym, subst, ap, Option, none, some, false, true, arith, List, [], ◌∷◌,
}
use python_agent_with_idp.Dict
use python_agent_with_idp.Dict.Laws.{get-put_self}
use python_agent_with_idp.Run.Code.{running, enqueued}
use python_agent_with_idp.Run.Status.{Uuid, RunStatus}
use python_agent_with_idp.Policy.{default_policy}
use python_agent_with_idp.Runtime.{InMemoryRuntime, Clock, create_default_in_memory_runtime}
use python_agent_with_idp.Writes.{write}
use python_agent_with_idp.Lifecycle.{fresh, WorkerStep}
use python_agent_with_idp.Intake.{new_run}
use python_agent_with_idp.Calls.{submit, perform}
use python_agent_with_idp.Calls.Sound.{
  IsSound, IsSound-performs, worker-IsSound, create_default_in_memory_runtime-IsSound,
}
use python_agent_with_idp.Orchestrator.Submission.{submitted, create_run_exact}

-- Ten seconds pass between two readings.
abbrev pub example_clock : Clock
example_clock n = n * 10_000_000

abbrev pub started : InMemoryRuntime
started = create_default_in_memory_runtime example_clock

pub started-IsSound : IsSound started
started-IsSound = create_default_in_memory_runtime-IsSound example_clock

pub started_unknown : Dict.contains started.internal_event_logs.internal_run_events 7 ≡ false
unfolding create_default_in_memory_runtime Dict.contains
started_unknown = refl

pub started_run_unknown : Dict.contains started.internal_run_storage 7 ≡ false
unfolding create_default_in_memory_runtime Dict.contains
started_run_unknown = refl

-- After a submission.
abbrev pub queued : InMemoryRuntime
queued = submitted started 7 "go"

abbrev pub queued_run : RunStatus
queued_run = fresh (new_run 7) enqueued

pub queued-IsSound : IsSound queued
unfolding perform
queued-IsSound =
    subst IsSound (ap (λ p. p.1) (create_run_exact started 7 "go" started_unknown))
      (IsSound-performs (submit 7 "go") started started-IsSound)

pub queued_stored : Dict.get queued.internal_run_storage 7 ≡ some queued_run
queued_stored = get-put_self started.internal_run_storage 7 queued_run

-- After a claim by the worker "w1".
abbrev pub claimed_run : RunStatus
claimed_run = record queued_run {
  status = running;
  claimed_worker = some "w1";
  claim_expiration_unix_ts = some 50_000_000;
}

abbrev pub claimed : InMemoryRuntime
claimed = write queued 7 claimed_run

pub claimed-IsSound : IsSound claimed
claimed-IsSound =
    worker-IsSound queued 7 queued_run claimed_run queued-IsSound queued_stored
      (WorkerStep.claim "w1" 50_000_000 refl refl refl)

pub claimed_stored : Dict.get claimed.internal_run_storage 7 ≡ some claimed_run
claimed_stored = get-put_self queued.internal_run_storage 7 claimed_run
