-- ===== src/Policy/Allowed.antt =====
-- The status diagram as a relation, beside the default policy.
use python_agent_with_idp.Prelude.{true, ◌≡◌, ◌↔◌, ◌⊎◌, refl, arith}
use python_agent_with_idp.Run.Code.{
  RunStatusCode, created, enqueued, running, succeeded, failed, cancelled, timed_out, retrying,
  member, terminal_run_statuses,
}
use python_agent_with_idp.Run.Status.{RunStatus}
use python_agent_with_idp.Error.{invalid_transition}
use python_agent_with_idp.Exec.{returned, raised}
use python_agent_with_idp.Policy.{new_policy, default_policy, validate}

-- The arrows of the status diagram.
pub data Allowed : RunStatusCode → RunStatusCode → Type 0 where
  enqueue : Allowed created enqueued
  claim : Allowed enqueued running
  succeed : Allowed running succeeded
  fail : Allowed running failed
  expire : Allowed running timed_out
  retry : Allowed timed_out retrying
  requeue : Allowed retrying enqueued
  cancel_created : Allowed created cancelled
  cancel_enqueued : Allowed enqueued cancelled
  cancel_running : Allowed running cancelled

pub ruleset arrows = (
  enqueue, claim, succeed, fail, expire, retry, requeue, cancel_created, cancel_enqueued,
  cancel_running,
)

pub Allowed-validate :
    (st : RunStatus) (to : RunStatusCode)
    → validate default_policy st to ≡ returned tt
    → Allowed st.status to
unfolding validate new_policy
Allowed-validate st to h = grind (arith, arrows)

validate_of_arrow :
    {from to : RunStatusCode} (a : Allowed from to) (st : RunStatus)
    → st.status ≡ from
    → validate default_policy st to ≡ returned tt
unfolding validate new_policy
validate_of_arrow enqueue st h = ground arith
validate_of_arrow _ st h = ground arith

-- The default policy accepts a change of status exactly when the status diagram has that arrow.
pub validate-Allowed :
    (st : RunStatus) (to : RunStatusCode)
    → (validate default_policy st to ≡ returned tt) ↔ Allowed st.status to
validate-Allowed st to = (Allowed-validate st to, λ a. validate_of_arrow a st refl)

pub validate_cases :
    (st : RunStatus) (to : RunStatusCode)
    → (validate default_policy st to ≡ returned tt)
      ⊎ (validate default_policy st to ≡ raised (invalid_transition st.status to))
unfolding validate new_policy
validate_cases st to = ground arith

no_arrow_of_terminal :
    (from : RunStatusCode)
    → member from terminal_run_statuses ≡ true
    → (to : RunStatusCode) → ¬ Allowed from to
unfolding member
no_arrow_of_terminal _ h to enqueue = cc
no_arrow_of_terminal _ h to _ = cc

terminal_of_no_arrow :
    (from : RunStatusCode)
    → ((to : RunStatusCode) → ¬ Allowed from to)
    → member from terminal_run_statuses ≡ true
unfolding member
terminal_of_no_arrow created h = absurd (h _ enqueue)
terminal_of_no_arrow enqueued h = absurd (h _ claim)
terminal_of_no_arrow running h = absurd (h _ succeed)
terminal_of_no_arrow timed_out h = absurd (h _ retry)
terminal_of_no_arrow retrying h = absurd (h _ requeue)
terminal_of_no_arrow _ h = refl

-- No arrow of the status diagram leaves a status of TERMINAL_RUN_STATUSES, and one leaves every
-- other status.
pub terminal_iff_no_arrow :
    (from : RunStatusCode)
    → (member from terminal_run_statuses ≡ true) ↔ ((to : RunStatusCode) → ¬ Allowed from to)
terminal_iff_no_arrow from = (no_arrow_of_terminal from, terminal_of_no_arrow from)
