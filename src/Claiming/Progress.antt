-- ===== src/Claiming/Progress.antt =====
-- A submitted run is claimed: the signal wakes a worker, and its next call of `claim_run` takes it.
use python_agent_with_idp.Prelude.{
  ℕ, arith, ◌≡◌, ◌≢◌, refl, ap, subst, ◌==◌, Bool-cases, inl, inr, String, true, false, none, some,
}
use python_agent_with_idp.Dict
use python_agent_with_idp.Dict.{Dict}
use python_agent_with_idp.Dict.Laws.{get-put, get-put_self}
use python_agent_with_idp.Run.Code.{running, enqueued, same}
use python_agent_with_idp.Run.Status.{Uuid, RunStatus, ClaimedRun}
use python_agent_with_idp.Exec.{returned}
use python_agent_with_idp.Policy.{default_policy}
use python_agent_with_idp.Runtime.{InMemoryRuntime}
use python_agent_with_idp.SignalQueue
use python_agent_with_idp.Lifecycle.{fresh}
use python_agent_with_idp.Intake.{new_run}
use python_agent_with_idp.Orchestrator
use python_agent_with_idp.Orchestrator.Submission.{submitted, create_run_exact}
use python_agent_with_idp.Calls.{submit, perform}
use python_agent_with_idp.Calls.Sound.{IsSound, IsSound-performs}
use python_agent_with_idp.Processing.{claim_run}
use python_agent_with_idp.Claiming.Claim.{IsClaimOf}
use python_agent_with_idp.Claiming.OnlyOne.{the_one_is_claimed}

==_sym_false : (a b : ℕ) → (a == b) ≡ false → (b == a) ≡ false
==_sym_false a b h = ground arith

-- No stored run is running or waits to be claimed.
abbrev pub IsIdle : InMemoryRuntime → Type 0
IsIdle s =
    (j : Uuid) (st : RunStatus)
    → Dict.get s.internal_run_storage j ≡ some st
    → (st.status ≢ running) × (st.status ≢ enqueued)

-- What `wait` leaves of the runtime.
abbrev pub after_wait : InMemoryRuntime → InMemoryRuntime
after_wait s = record s { run_signal_queue = SignalQueue.wait s.run_signal_queue }

module _ (s : InMemoryRuntime) (run_id : Uuid) (prompt : String) (idle : IsIdle s) (j : Uuid)
    (st : RunStatus)
    (g : Dict.get (submitted s run_id prompt).internal_run_storage j ≡ some st) where
  submitted_not_running : st.status ≢ running
  submitted_not_running = elim (Bool-cases (run_id == j)) [
    | inl same ↦ λ e. cc (rw (get-put, same) at g, e)
    | inr other ↦ (idle j st (rw (get-put, other) at g)).0
  ]

  submitted_not_enqueued : (j == run_id) ≡ false → st.status ≢ enqueued
  submitted_not_enqueued other = (idle j st (rw (get-put, ==_sym_false j run_id other) at g)).1

module _ (worker_id : String) (s : InMemoryRuntime) (run_id : Uuid) (prompt : String) where
  submitted-IsSound :
      IsSound s
      → Dict.contains s.internal_event_logs.internal_run_events run_id ≡ false
      → IsSound (submitted s run_id prompt)
  unfolding perform
  submitted-IsSound sound unknown =
      subst IsSound (ap (λ p. p.1) (create_run_exact s run_id prompt unknown))
        (IsSound-performs (submit run_id prompt) s sound)

  -- A submission to a sound runtime in which no stored run is running or enqueued, under a UUID
  -- without a stream of events, wakes the workers: `wait` may return at once, and the next
  -- `claim_run`, by any worker and at any time, returns a claim of this very run, which is then
  -- stored as running and owned by that worker.
  pub submitted_run_is_claimed :
      IsSound s
      → Dict.contains s.internal_event_logs.internal_run_events run_id ≡ false
      → IsIdle s
      → let s' = (Orchestrator.create_run default_policy run_id prompt s).1 in
        let (reply, s'') = claim_run default_policy worker_id (after_wait s') in
        (SignalQueue.may_return s'.run_signal_queue none 0 ≡ true)
        × (claimed : ClaimedRun) × (reply ≡ returned (some claimed))
        × (claimed.id ≡ run_id)
        × IsClaimOf worker_id claimed s''.internal_run_storage
  unfolding SignalQueue.may_return
  submitted_run_is_claimed sound unknown idle =
      let kept = submitted-IsSound sound unknown in
      let (claimed, replied, own, facts) =
        the_one_is_claimed worker_id run_id (after_wait (submitted s run_id prompt))
          (fresh (new_run run_id) enqueued)
          (record { runs = kept.runs; streams = kept.streams; ordered = kept.ordered })
          (get-put_self s.internal_run_storage run_id (fresh (new_run run_id) enqueued)) refl refl
          (submitted_not_running s run_id prompt idle)
          (λ j st other g. submitted_not_enqueued s run_id prompt idle j st g other) in
      rw (ap (λ r. r.1) (create_run_exact s run_id prompt unknown))
        (refl, claimed, replied, own, facts)
