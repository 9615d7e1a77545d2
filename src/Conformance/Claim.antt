-- ===== src/Conformance/Claim.antt =====
-- `claim_run` and what it calls, against the steps of `WorkerStep`.
use python_agent_with_idp.Prelude.{◌≡◌, refl, String, false, none, some, List, [], ◌∷◌}
use python_agent_with_idp.Dict
use python_agent_with_idp.Json.{end}
use python_agent_with_idp.Run.Code.{enqueued, running, cancelled, timed_out, retrying}
use python_agent_with_idp.Run.Status.{Uuid, RunStatus}
use python_agent_with_idp.Exec.Leads.{
  Leads, Keeps, Leads-bind, Leads-bind-lift, Leads-if, Leads-weaken, Leads-strengthen, keeps_rules,
  Keeps-return, Keeps-bind,
}
use python_agent_with_idp.Policy.{default_policy}
use python_agent_with_idp.Policy.Allowed.{Allowed, expire}
use python_agent_with_idp.Runtime.{InMemoryRuntime}
use python_agent_with_idp.Writes.{
  write, At, IsPassive, At-IsPassive, forget, run_at-Keeps, Leads-run_at,
}
use python_agent_with_idp.Transition.{moved}
use python_agent_with_idp.Lifecycle.{WorkerStep, time_out, claim, cancel}
use python_agent_with_idp.Processing.{
  plus_one, recover_expired_runs, recover_if_expired, recover_loop, set_cancelled_locked,
  claim_enqueued, claim_loop, claim_run,
}
use python_agent_with_idp.Conformance.Moves.{
  transition_locked-Leads, transition_known, has_claim_expired-Keeps, get_new_expiration_ts-Keeps,
  step_known, arrow_from, plus_one_inverse, is_code,
}

-- `P` is any predicate that the steps of a worker, events and readings of the clock keep.
module _ (P : InMemoryRuntime → Type 0) (passive : IsPassive P)
    (closed : (s : InMemoryRuntime) (run_id : Uuid) (cur new : RunStatus)
      → P s
      → Dict.get s.internal_run_storage run_id ≡ some cur
      → WorkerStep cur new
      → P (write s run_id new)) where
  recover_expired_runs-Keeps :
      (run_id : Uuid) (st : RunStatus) (worker_id : String)
      → st.status ≡ running
      → Leads (At P run_id st) (recover_expired_runs default_policy run_id st worker_id) P
  unfolding recover_expired_runs moved
  recover_expired_runs-Keeps run_id st worker_id is_running =
      Leads-bind _ _
        (step_known P closed run_id st timed_out _ (arrow_from is_running expire)
          (time_out worker_id is_running refl))
        (λ _.
          Leads-bind-lift (plus_one st.retry_count) _
            (λ retries counted.
              let (n, had, has) = plus_one_inverse st.retry_count retries counted in
              Leads-bind _ _
                (step_known P closed run_id _ retrying _ Allowed.retry
                  (WorkerStep.retry worker_id n refl had (rw has)))
                (λ _.
                  Leads-weaken
                    (step_known P closed run_id _ enqueued _ Allowed.requeue
                      (WorkerStep.requeue worker_id refl refl))
                    (forget P run_id _))
                (forget P run_id _))
            (forget P run_id _))
        (forget P run_id _)

  recover_if_expired-Keeps :
      (run_id : Uuid) (st : RunStatus) (worker_id : String)
      → Leads (At P run_id st) (recover_if_expired default_policy worker_id run_id st) P
  unfolding recover_if_expired
  recover_if_expired-Keeps run_id st worker_id =
      Leads-if _ _ _ (λ _. Leads-weaken (Keeps-return tt) (forget P run_id st))
        (λ is_running.
          Leads-bind _ _
            (has_claim_expired-Keeps (At P run_id st) (At-IsPassive P run_id st passive) st)
            (λ claim_expired.
              Leads-if _ _ _ (λ _. Leads-weaken (Keeps-return tt) (forget P run_id st))
                (λ _.
                  Leads-bind _ _
                    ((At-IsPassive P run_id st passive).appends run_id "claim_expired" end)
                    (λ _. recover_expired_runs-Keeps run_id st worker_id (is_code _ _ is_running))
                    (forget P run_id st)))
            (forget P run_id st))

  recover_loop-Keeps :
      (worker_id : String) (run_ids : List Uuid)
      → Keeps P (recover_loop default_policy worker_id run_ids)
  unfolding recover_loop
  recover_loop-Keeps worker_id [] = Keeps-return tt
  recover_loop-Keeps worker_id (run_id ∷ run_ids) =
      Leads-run_at P P run_id _
        (λ st.
          Leads-bind _ _ (recover_if_expired-Keeps run_id st worker_id)
            (λ _. recover_loop-Keeps worker_id run_ids) (λ s h. h))
        (λ s h. h)

  pub set_cancelled_locked-Keeps :
      (run_id : Uuid) → Keeps P (set_cancelled_locked default_policy run_id)
  unfolding set_cancelled_locked moved
  set_cancelled_locked-Keeps run_id =
      Leads-bind _ _
        (transition_locked-Leads P P run_id cancelled _
          (λ s cur h g arrow. closed s run_id cur _ h g (cancel arrow refl)) (λ s h. h))
        (λ _. search (keeps_rules, passive.appends)) (λ s h. h)

  claim_enqueued-Keeps :
      (run_id : Uuid) (st : RunStatus) (worker_id : String)
      → st.status ≡ enqueued
      → st.cancel_requested ≡ false
      → Leads (At P run_id st) (claim_enqueued default_policy worker_id run_id) P
  unfolding claim_enqueued moved
  claim_enqueued-Keeps run_id st worker_id is_enqueued wanted =
      Leads-bind _ _
        (get_new_expiration_ts-Keeps (At P run_id st) (At-IsPassive P run_id st passive))
        (λ expiration.
          Leads-bind _ _
            (transition_known P P run_id st running _ (arrow_from is_enqueued Allowed.claim)
              (λ s h g.
                closed s run_id st _ h g (claim worker_id expiration is_enqueued wanted refl)))
            (λ _. search (keeps_rules, passive.appends, run_at-Keeps P)) (λ s h. h))
        (forget P run_id st)

  claim_loop-Keeps :
      (worker_id : String) (run_ids : List Uuid)
      → Keeps P (claim_loop default_policy worker_id run_ids)
  unfolding claim_loop
  claim_loop-Keeps worker_id [] = Keeps-return none
  claim_loop-Keeps worker_id (run_id ∷ run_ids) =
      let rest = claim_loop-Keeps worker_id run_ids in
      Leads-run_at P P run_id _
        (λ st.
          Leads-if _ _ _ (λ _. Leads-strengthen rest (forget P run_id st))
            (λ is_enqueued.
              Leads-if _ _ _
                (λ _.
                  Leads-strengthen (Keeps-bind _ _ (set_cancelled_locked-Keeps run_id) (λ _. rest))
                    (forget P run_id st))
                (λ wanted.
                  Leads-bind _ _
                    (claim_enqueued-Keeps run_id st worker_id (is_code _ _ is_enqueued) wanted)
                    (λ claimed. Keeps-return (some claimed)) (λ s h. h))))
        (λ s h. h)

  pub claim_run-Keeps : (worker_id : String) → Keeps P (claim_run default_policy worker_id)
  unfolding claim_run
  claim_run-Keeps worker_id = search (keeps_rules, recover_loop-Keeps, claim_loop-Keeps)
