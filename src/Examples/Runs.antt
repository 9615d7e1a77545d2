-- ===== src/Examples/Runs.antt =====
-- The theorems on the shared runtime, at the concrete runs.
use python_agent_with_idp.Prelude.{
  false, ◌≡◌, ◌≢◌, ◌⊎◌, ◌↔◌, All, arith, refl, true, Option, none, some, List, [], ◌∷◌,
}
use python_agent_with_idp.Dict
use python_agent_with_idp.Dict.Laws.{get-put_self}
use python_agent_with_idp.Json.{end}
use python_agent_with_idp.Run.Code.{cancelled, running, succeeded, created, member}
use python_agent_with_idp.Run.Status.{RunStatus, ClaimedRun}
use python_agent_with_idp.Error.{run_lease_lost}
use python_agent_with_idp.Exec.{returned, raised}
use python_agent_with_idp.Policy.{default_policy, validate}
use python_agent_with_idp.Policy.Allowed.{Allowed, validate-Allowed}
use python_agent_with_idp.SignalQueue
use python_agent_with_idp.Runtime.{read_clock, create_default_in_memory_runtime}
use python_agent_with_idp.Writes.{write}
use python_agent_with_idp.Lifecycle.{◌⟶*◌}
use python_agent_with_idp.Intake.{new_run}
use python_agent_with_idp.Processing.{claim_run, recover_expired_runs, heartbeat}
use python_agent_with_idp.Runtime.{InMemoryRuntime}
use python_agent_with_idp.Orchestrator
use python_agent_with_idp.Orchestrator.{request_cancel}
use python_agent_with_idp.Orchestrator.AnyStore.{request_cancel_by_contract}
use python_agent_with_idp.Services.{RunIntakeStore}
use python_agent_with_idp.Services.InMemory.{find, in_memory_signal_queue, in_memory_intake_store}
use python_agent_with_idp.Services.InMemory.Kept.{Woken, in_memory_stores_keep_contracts}
use python_agent_with_idp.Orchestrator.Submission.{submitted, create_run_exact}
use python_agent_with_idp.Services.Contract.{Stores, asked, settled_already}
use python_agent_with_idp.Calls.{Call, OnNew, perform_all}
use python_agent_with_idp.Calls
use python_agent_with_idp.Calls.Follows.{
  history_follows_life_cycle, terminal_for_ever, asked_never_starts,
}
use python_agent_with_idp.Calls.Sound.{IsSound, perform_all-IsSound}
use python_agent_with_idp.Claiming.Claim.{ClaimResult, IsClaimOf}
use python_agent_with_idp.Claiming.Loop.{claim_run_total}
use python_agent_with_idp.Claiming.Progress.{IsIdle, after_wait, submitted_run_is_claimed}
use python_agent_with_idp.Claiming.Recovery.{recovered, recover_expired_runs_exact}
use python_agent_with_idp.Claiming.Heartbeat.{renewed, heartbeat_exact}
use python_agent_with_idp.Examples.{
  started, started-IsSound, started_unknown, queued, queued_run, queued-IsSound, queued_stored,
  claimed, claimed_run, claimed-IsSound, claimed_stored,
}

-- A client asks to cancel the run, a worker claims it and another run is submitted.
abbrev history : List Call
history =
    Calls.cancel_run 7
    ∷ Calls.claim_run "w1"
    ∷ Calls.submit 8 "more"
    ∷ Calls.set_succeeded 7 end
    ∷ []

history_is_new : All (OnNew (λ new. new ≢ 7)) history
history_is_new = (tt, (tt, (omega arith, (tt, tt))))

no_way_back : ¬ Allowed running created
no_way_back a = elim a [ ]

history_follows_life_cycle_example :
    (st' : RunStatus) × (Dict.get (perform_all history queued).internal_run_storage 7 ≡ some st')
    × (queued_run ⟶* st')
history_follows_life_cycle_example =
    history_follows_life_cycle history queued 7 queued_run queued_stored history_is_new

abbrev ended_run : RunStatus
ended_run = record claimed_run { status = succeeded }

terminal_for_ever_example :
    Dict.get (perform_all history (write claimed 7 ended_run)).internal_run_storage 7
    ≡ some ended_run
unfolding member
terminal_for_ever_example =
    terminal_for_ever history (write claimed 7 ended_run) 7 ended_run
      (get-put_self claimed.internal_run_storage 7 ended_run) refl history_is_new

perform_all-IsSound_example : IsSound (perform_all history started)
perform_all-IsSound_example = perform_all-IsSound history started started-IsSound

claim_run_total_example :
    (result : Option ClaimedRun) × ((claim_run default_policy "w1" queued).0 ≡ returned result)
    × ClaimResult "w1" result (claim_run default_policy "w1" queued).1.internal_run_storage
claim_run_total_example = claim_run_total "w1" queued queued-IsSound

recover_expired_runs_exact_example :
    recover_expired_runs default_policy 7 claimed_run "w2" claimed
    ≡ (returned tt, write claimed 7 (recovered claimed_run "w2" 0))
recover_expired_runs_exact_example =
    recover_expired_runs_exact claimed 7 claimed_run "w2" 0 claimed_stored refl refl

heartbeat_exact_example :
    ((claimed_run.status ≢ running) × (heartbeat 7 "w1" claimed ≡ (returned claimed_run, claimed)))
    ⊎ ((claimed_run.status ≡ running)
        × (claimed_run.claimed_worker ≡ some "w1")
        × (heartbeat 7 "w1" claimed ≡ (
          returned (renewed claimed_run (claimed.clock 0)),
          write (read_clock claimed).1 7 (renewed claimed_run (claimed.clock 0)),
        )))
    ⊎ ((claimed_run.status ≡ running)
        × (claimed_run.claimed_worker ≢ some "w1")
        × ((heartbeat 7 "w1" claimed).0 ≡ raised (run_lease_lost 7 "w1"))
        × ((heartbeat 7 "w1" claimed).1.internal_run_storage ≡ claimed.internal_run_storage))
heartbeat_exact_example = heartbeat_exact claimed 7 "w1" claimed_run claimed-IsSound claimed_stored

abbrev store : RunIntakeStore InMemoryRuntime
store = in_memory_intake_store default_policy

create_run_exact_example :
    Orchestrator.create_run default_policy 7 "go" started
    ≡ (returned (new_run 7), submitted started 7 "go")
create_run_exact_example = create_run_exact started 7 "go" started_unknown

request_cancel_by_contract_example :
    ((settled_already claimed_run ≡ true)
      × (request_cancel store in_memory_signal_queue 7 claimed ≡ (returned false, claimed)))
    ⊎ ((settled_already claimed_run ≡ false)
        × Stores IsSound find
            (request_cancel store in_memory_signal_queue 7)
            claimed
            true
            7
            (asked claimed_run)
        × Woken (request_cancel store in_memory_signal_queue 7 claimed).1)
request_cancel_by_contract_example =
    request_cancel_by_contract IsSound find Woken store in_memory_signal_queue
      in_memory_stores_keep_contracts.0 in_memory_stores_keep_contracts.2 7 claimed claimed_run
      claimed-IsSound claimed_stored

validate-Allowed_example :
    (validate default_policy claimed_run succeeded ≡ returned tt) ↔ Allowed running succeeded
validate-Allowed_example = validate-Allowed claimed_run succeeded

asked_never_starts_example :
    (st' : RunStatus) × (Dict.get
        (perform_all history (write queued 7 (asked queued_run))).internal_run_storage
        7
      ≡ some st')
    × ((st' ≡ asked queued_run) ⊎ (st'.status ≡ cancelled))
asked_never_starts_example =
    asked_never_starts history (write queued 7 (asked queued_run)) 7 (asked queued_run)
      (get-put_self queued.internal_run_storage 7 (asked queued_run)) refl refl history_is_new

started-IsIdle : IsIdle started
unfolding create_default_in_memory_runtime Dict.get
started-IsIdle = λ j st g. cc

submitted_run_is_claimed_example :
    let s' = (Orchestrator.create_run default_policy 7 "go" started).1 in
    let (reply, s'') = claim_run default_policy "w1" (after_wait s') in
    (SignalQueue.may_return s'.run_signal_queue none 0 ≡ true)
    × (taken : ClaimedRun) × (reply ≡ returned (some taken))
    × (taken.id ≡ 7)
    × IsClaimOf "w1" taken s''.internal_run_storage
submitted_run_is_claimed_example =
    submitted_run_is_claimed "w1" started 7 "go" started-IsSound started_unknown started-IsIdle
