-- ===== src/Conformance/Worker.antt =====
-- The other methods of the processing store, against the steps of `WorkerStep`.
use python_agent_with_idp.Prelude.{◌≡◌, refl, not, String, some}
use python_agent_with_idp.Dict
use python_agent_with_idp.Json.{Fields}
use python_agent_with_idp.Run.Code.{running, succeeded, failed, cancelled, same}
use python_agent_with_idp.Run.Status.{Uuid, RunStatus}
use python_agent_with_idp.Exec.Leads.{
  Leads, Keeps, Leads-bind, Leads-if, Leads-weaken, Leads-strengthen, keeps_rules, Keeps-return,
}
use python_agent_with_idp.Policy.{default_policy}
use python_agent_with_idp.Runtime.{InMemoryRuntime}
use python_agent_with_idp.Writes.{
  write, At, IsPassive, At-IsPassive, forget, run_at-Keeps, Leads-set_run, Leads-run_at,
}
use python_agent_with_idp.Transition.{moved}
use python_agent_with_idp.Lifecycle.{WorkerStep, succeed, fail}
use python_agent_with_idp.Processing.{
  lose_claim, renew_claim, heartbeat, is_owner, set_failed, set_succeeded, set_cancelled,
  get_status,
}
use python_agent_with_idp.Conformance.Moves.{
  transition_locked-Leads, get_new_expiration_ts-Keeps, is_code, fail_source, succeed_source,
  is_owner_inverse, renewal,
}
use python_agent_with_idp.Conformance.Claim.{set_cancelled_locked-Keeps}

-- `P` is any predicate that the steps of a worker, events and readings of the clock keep.
module _ (P : InMemoryRuntime → Type 0) (passive : IsPassive P)
    (closed : (s : InMemoryRuntime) (run_id : Uuid) (cur new : RunStatus)
      → P s
      → Dict.get s.internal_run_storage run_id ≡ some cur
      → WorkerStep cur new
      → P (write s run_id new)) where
  renew_claim-Keeps :
      (run_id : Uuid) (worker_id : String) (st : RunStatus)
      → st.status ≡ running
      → st.claimed_worker ≡ some worker_id
      → Leads (At P run_id st) (renew_claim run_id worker_id st) P
  unfolding renew_claim
  renew_claim-Keeps run_id worker_id st is_running owner =
      Leads-bind _ _
        (get_new_expiration_ts-Keeps (At P run_id st) (At-IsPassive P run_id st passive))
        (λ until.
          Leads-bind _ _
            (Leads-set_run (At P run_id st) P run_id _
              (λ s h. closed s run_id st _ h.0 h.1 (renewal st worker_id until is_running owner)))
            (λ _. Keeps-return _) (λ s h. h))
        (forget P run_id st)

  lose_claim-Keeps : (run_id : Uuid) (worker_id : String) → Keeps P (lose_claim run_id worker_id)
  unfolding lose_claim
  lose_claim-Keeps run_id worker_id = search (keeps_rules, passive.appends)

  pub heartbeat-Keeps : (run_id : Uuid) (worker_id : String) → Keeps P (heartbeat run_id worker_id)
  unfolding heartbeat
  heartbeat-Keeps run_id worker_id =
      Leads-run_at P P run_id _
        (λ st.
          Leads-if (same st.status cancelled) _ _
            (λ _. Leads-weaken (Keeps-return st) (forget P run_id st))
            (λ _.
              Leads-if (not (same st.status running)) _ _
                (λ _. Leads-weaken (Keeps-return st) (forget P run_id st))
                (λ is_running.
                  Leads-if (not (is_owner st.claimed_worker worker_id)) _ _
                    (λ _. Leads-strengthen (lose_claim-Keeps run_id worker_id) (forget P run_id st))
                    (λ owner.
                      renew_claim-Keeps run_id worker_id st (is_code _ _ is_running)
                        (is_owner_inverse st.claimed_worker worker_id owner)))))
        (λ s h. h)

  pub set_failed-Keeps :
      (run_id : Uuid) (error : String) → Keeps P (set_failed default_policy run_id error)
  unfolding set_failed moved
  set_failed-Keeps run_id error =
      Leads-bind _ _
        (transition_locked-Leads P P run_id failed _
          (λ s cur h g arrow. closed s run_id cur _ h g (fail error (fail_source arrow) refl))
          (λ s h. h))
        (λ _. search (keeps_rules, passive.appends)) (λ s h. h)

  pub set_succeeded-Keeps :
      (run_id : Uuid) (result : Fields) → Keeps P (set_succeeded default_policy run_id result)
  unfolding set_succeeded moved
  set_succeeded-Keeps run_id result =
      Leads-bind _ _
        (transition_locked-Leads P P run_id succeeded _
          (λ s cur h g arrow.
            closed s run_id cur _ h g (succeed result (succeed_source arrow) refl))
          (λ s h. h))
        (λ _. search (keeps_rules, passive.appends)) (λ s h. h)

  pub set_cancelled-Keeps : (run_id : Uuid) → Keeps P (set_cancelled default_policy run_id)
  unfolding set_cancelled
  set_cancelled-Keeps run_id = set_cancelled_locked-Keeps P passive closed run_id

pub processing_get_status-Keeps :
    (P : InMemoryRuntime → Type 0) (run_id : Uuid) → Keeps P (get_status run_id)
unfolding get_status
processing_get_status-Keeps P run_id = search (keeps_rules, run_at-Keeps P)
