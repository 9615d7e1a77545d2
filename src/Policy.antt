-- ===== src/Policy.antt =====
-- llm_agent/llm_agent/domain/agent/runs/transition_rules.py and
-- llm_agent/llm_agent/services/agent/transition_policy.py
pub mod Allowed
use python_agent_with_idp.Prelude.{Option, none, some, List, [], ◌∷◌, if◌then◌else◌}
use python_agent_with_idp.Run.Code.{
  RunStatusCode, created, enqueued, running, succeeded, failed, cancelled, timed_out, retrying,
  same, member,
}
use python_agent_with_idp.Run.Status.{RunStatus}
use python_agent_with_idp.Error.{unknown_run_status, invalid_transition}
use python_agent_with_idp.Exec.{Outcome, Done, returned, raised}

-- dict[RunStatusCode, tuple[RunStatusCode]]
abbrev pub TransitionRules : Type 0
TransitionRules = List (RunStatusCode × List RunStatusCode)

abbrev pub default_transition_rules : TransitionRules
default_transition_rules =
    (created, enqueued ∷ cancelled ∷ [])
    ∷ (enqueued, running ∷ cancelled ∷ [])
    ∷ (running, succeeded ∷ failed ∷ cancelled ∷ timed_out ∷ [])
    ∷ (succeeded, [])
    ∷ (failed, [])
    ∷ (cancelled, [])
    ∷ (timed_out, retrying ∷ [])
    ∷ (retrying, enqueued ∷ [])
    ∷ []

pub record RunTransitionPolicy : Type 0 where
  pub transition_rules : TransitionRules

-- __init__: no rules, or an empty dictionary, means the default ones
unfoldable pub new_policy : Option TransitionRules → RunTransitionPolicy
new_policy none = record { transition_rules = default_transition_rules }
new_policy (some []) = record { transition_rules = default_transition_rules }
new_policy (some (rule ∷ rules)) = record { transition_rules = rule ∷ rules }

-- transition_rules.get(code)
rule_for : TransitionRules → RunStatusCode → Option (List RunStatusCode)
unfolding same
rule_for [] code = none
rule_for ((from, targets) ∷ rules) code =
    if same from code then some targets else rule_for rules code

check_target : Option (List RunStatusCode) → RunStatusCode → RunStatusCode → Outcome Done
unfolding member
check_target none code new_status = raised (unknown_run_status code)
check_target (some targets) code new_status =
    if member new_status targets then returned tt else raised (invalid_transition code new_status)

unfoldable pub validate : RunTransitionPolicy → RunStatus → RunStatusCode → Outcome Done
unfolding rule_for check_target
validate policy run_status new_status =
    check_target (rule_for policy.transition_rules run_status.status) run_status.status new_status

abbrev pub default_policy : RunTransitionPolicy
default_policy = new_policy none
