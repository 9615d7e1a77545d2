-- ===== src/Conformance/Intake.antt =====
-- The intake store, against the steps of `IntakeStep`.
use python_agent_with_idp.Prelude.{ℕ, ◌≡◌, refl, false, Option, some}
use python_agent_with_idp.Dict
use python_agent_with_idp.Dict.{Dict}
use python_agent_with_idp.Run.Code.{enqueued, cancelled, terminal_run_statuses, member}
use python_agent_with_idp.Run.Status.{Uuid, RunStatus, RunRequest}
use python_agent_with_idp.Exec.Leads.{
  Leads, Keeps, Leads-bind, Leads-bind-lift, Leads-if, Leads-weaken, keeps_rules, Keeps-return,
  Keeps-bind,
}
use python_agent_with_idp.Policy.{validate, default_policy}
use python_agent_with_idp.Policy.Allowed.{Allowed-validate}
use python_agent_with_idp.Runtime.{InMemoryRuntime, init_run_stream}
use python_agent_with_idp.Writes.{
  write, At, IsPassive, forget, run_at-Keeps, Leads-set_run, Leads-run_at,
}
use python_agent_with_idp.Lifecycle.{IntakeStep, enqueue, drop, ask}
use python_agent_with_idp.Intake.{
  new_run, create_run, require_run, get_status, mark_enqueued, mark_cancelled, request_cancellation,
  get_events,
}

module _ (P Q : InMemoryRuntime → Type 0) (passive : IsPassive Q) where
  pub create_run-Leads :
      (run_id : Uuid) (request : RunRequest)
      → Keeps Q (init_run_stream run_id)
      → ((s : InMemoryRuntime) → P s → Q (write s run_id (new_run run_id)))
      → Leads P (create_run run_id request) Q
  unfolding create_run
  create_run-Leads run_id request streams born =
      Leads-bind _ _ (Leads-set_run P Q run_id (new_run run_id) born)
        (λ _. Keeps-bind _ _ streams (λ _. search (keeps_rules, passive.appends))) (λ s h. h)

module _ (P : InMemoryRuntime → Type 0) where
  require_run-Keeps : (run_id : Uuid) → Keeps P (require_run run_id)
  unfolding require_run
  require_run-Keeps run_id = search keeps_rules

  pub get_status-Keeps : (run_id : Uuid) → Keeps P (get_status run_id)
  unfolding get_status
  get_status-Keeps run_id = search (keeps_rules, require_run-Keeps, run_at-Keeps P)

  pub get_events-Keeps : (run_id : Uuid) (after : Option ℕ) → Keeps P (get_events run_id after)
  unfolding get_events
  get_events-Keeps run_id after = search (keeps_rules, require_run-Keeps)

-- From here on `P` is any predicate of the runs that the steps of the intake store keep.
module _ (P : InMemoryRuntime → Type 0) (passive : IsPassive P)
    (closed : (s : InMemoryRuntime) (run_id : Uuid) (cur new : RunStatus)
      → P s
      → Dict.get s.internal_run_storage run_id ≡ some cur
      → IntakeStep cur new
      → P (write s run_id new)) where
  pub mark_enqueued-Keeps : (run_id : Uuid) → Keeps P (mark_enqueued default_policy run_id)
  unfolding mark_enqueued
  mark_enqueued-Keeps run_id =
      Leads-run_at P P run_id _
        (λ st.
          Leads-bind-lift (validate default_policy st enqueued) _
            (λ _ accepted.
              Leads-bind _ _
                (Leads-set_run (At P run_id st) P run_id _ (λ s h.
                  closed s run_id st _ h.0 h.1
                    (enqueue (Allowed-validate st enqueued accepted) refl)))
                (λ _. search (keeps_rules, passive.appends)) (λ s h. h))
            (forget P run_id st))
        (λ s h. h)

  pub mark_cancelled-Keeps : (run_id : Uuid) → Keeps P (mark_cancelled default_policy run_id)
  unfolding mark_cancelled
  mark_cancelled-Keeps run_id = Keeps-bind _ _ (require_run-Keeps P run_id) (λ _.
      Leads-run_at P P run_id _
        (λ st.
          Leads-if (member st.status terminal_run_statuses) _ _
            (λ _. Leads-weaken (Keeps-return false) (forget P run_id st))
            (λ _.
              Leads-bind-lift (validate default_policy st cancelled) _
                (λ _ accepted.
                  Leads-bind _ _
                    (Leads-set_run (At P run_id st) P run_id _ (λ s h.
                      closed s run_id st _ h.0 h.1
                        (drop (Allowed-validate st cancelled accepted) refl)))
                    (λ _. search (keeps_rules, passive.appends)) (λ s h. h))
                (forget P run_id st)))
        (λ s h. h))

  pub request_cancellation-Keeps : (run_id : Uuid) → Keeps P (request_cancellation run_id)
  unfolding request_cancellation
  request_cancellation-Keeps run_id = Keeps-bind _ _ (require_run-Keeps P run_id) (λ _.
      Leads-run_at P P run_id _
        (λ st.
          Leads-if (member st.status terminal_run_statuses) _ _
            (λ _. Leads-weaken (Keeps-return false) (forget P run_id st))
            (λ live.
              Leads-if st.cancel_requested _ _
                (λ _. Leads-weaken (Keeps-return false) (forget P run_id st))
                (λ unasked.
                  Leads-bind _ _
                    (Leads-set_run (At P run_id st) P run_id _
                      (λ s h. closed s run_id st _ h.0 h.1 (ask live unasked refl)))
                    (λ _. search (keeps_rules, passive.appends)) (λ s h. h))))
        (λ s h. h))
