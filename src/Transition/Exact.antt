-- ===== src/Transition/Exact.antt =====
-- What `_transition_locked` does, branch by branch.
use python_agent_with_idp.Prelude.{arith, ◌≡◌, Option, none, some, ◌⊎◌, inl, inr}
use python_agent_with_idp.Dict
use python_agent_with_idp.Run.Code.{RunStatusCode}
use python_agent_with_idp.Run.Status.{Uuid, RunStatus}
use python_agent_with_idp.Error.{key_error, invalid_transition}
use python_agent_with_idp.Exec.{returned, raised, ◌>>=◌}
use python_agent_with_idp.Policy.{default_policy}
use python_agent_with_idp.Policy.Allowed.{Allowed, validate-Allowed, validate_cases}
use python_agent_with_idp.Request.{TransitionRequestParams}
use python_agent_with_idp.Runtime.{
  InMemoryRuntime, read_clock, set_run, run_at_there, run_at_missing,
}
use python_agent_with_idp.Transition.{moved, or_no_params, transition_locked, has_claim_expired}

module _ (run_id : Uuid) (target : RunStatusCode) (request : Option TransitionRequestParams)
    (s : InMemoryRuntime) where
  -- For a stored run and an arrow of the status diagram, `_transition_locked` returns and
  -- writes the new record of this run alone.
  pub transition_locked_taken :
      (cur : RunStatus)
      → Dict.get s.internal_run_storage run_id ≡ some cur
      → Allowed cur.status target
      → transition_locked default_policy run_id target request s ≡ (
        returned tt,
        record s {
          internal_run_storage =
              Dict.put s.internal_run_storage run_id (moved cur target (or_no_params request));
        },
      )
  unfolding transition_locked set_run ◌>>=◌
  transition_locked_taken cur g a =
      rw (run_at_there run_id s g) (rw ((validate-Allowed cur target).1 a))

  -- For a stored run and no arrow of the status diagram, `_transition_locked` raises the
  -- ValueError of an invalid transition, and nothing is written.
  pub transition_locked_refused :
      (cur : RunStatus)
      → Dict.get s.internal_run_storage run_id ≡ some cur
      → ¬ Allowed cur.status target
      → transition_locked default_policy run_id target request s
        ≡ (raised (invalid_transition cur.status target), s)
  unfolding transition_locked ◌>>=◌
  transition_locked_refused cur g no_arrow =
      rw (run_at_there run_id s g) (elim (validate_cases cur target) [
        | inl v ↦ absurd (no_arrow ((validate-Allowed cur target).0 v))
        | inr v ↦ rw v
      ])

  -- For an unknown run `KeyError` is raised and nothing is written.
  pub transition_locked_missing :
      Dict.get s.internal_run_storage run_id ≡ none
      → transition_locked default_policy run_id target request s ≡ (raised (key_error run_id), s)
  unfolding transition_locked ◌>>=◌
  transition_locked_missing g = rw (run_at_missing run_id s g)

-- To test a claim changes nothing but the clock, which is read once or not at all.
pub has_claim_expired_reads :
    (run_status : RunStatus) (s : InMemoryRuntime)
    → ((has_claim_expired run_status s).1 ≡ s)
      ⊎ ((has_claim_expired run_status s).1 ≡ (read_clock s).1)
unfolding has_claim_expired read_clock ◌>>=◌
has_claim_expired_reads run_status s = ground arith
