-- ===== src/Claiming/Completion.antt =====
-- The methods by which a worker ends a run, at a running run in a sound state.
use python_agent_with_idp.Prelude.{◌≡◌, refl, String, true, some, List, elem}
use python_agent_with_idp.Dict
use python_agent_with_idp.Dict.{Dict}
use python_agent_with_idp.Dict.Laws.{get-put_self, contains-eq-elem, contains_of_get}
use python_agent_with_idp.Json.{Fields, end}
use python_agent_with_idp.Run.Code.{running, succeeded, failed, cancelled}
use python_agent_with_idp.Run.Status.{Uuid, RunStatus}
use python_agent_with_idp.Exec.{raised, ◌>>=◌}
use python_agent_with_idp.Exec.Returns.{Returns, Returns-bind, Returns-return}
use python_agent_with_idp.Error.{invalid_transition}
use python_agent_with_idp.Policy.{default_policy}
use python_agent_with_idp.Policy.Allowed.{Allowed, succeed, fail, cancel_running}
use python_agent_with_idp.Runtime.{InMemoryRuntime}
use python_agent_with_idp.Lifecycle.{WorkerStep}
use python_agent_with_idp.Transition.{moved}
use python_agent_with_idp.Transition.Exact.{transition_locked_refused}
use python_agent_with_idp.Conformance.Moves.{arrow_from}
use python_agent_with_idp.Calls.Sound.{IsSound}
use python_agent_with_idp.Processing.{
  set_cancelled_locked, set_cancelled, set_failed, set_succeeded,
}
use python_agent_with_idp.Claiming.Steps.{Inside, With, append_event_returns, transition_returns}
use python_agent_with_idp.Claiming.Recovery.{Anything}

-- The run `run_id` is stored as `st`.
abbrev pub StoredAs : Uuid → RunStatus → Dict RunStatus → Type 0
StoredAs run_id st d = Dict.get d run_id ≡ some st

module _ {all : List Uuid} (run_id : Uuid) (st : RunStatus) (listed : elem run_id all ≡ true)
    (is_running : st.status ≡ running) where
  pub set_cancelled_returns :
      Returns
        (Inside all (With Anything run_id st))
        (set_cancelled default_policy run_id)
        (λ done. Inside all (StoredAs run_id (record st { status = cancelled })))
  unfolding set_cancelled moved
  set_cancelled_returns =
      Returns-bind _ _
        (transition_returns (StoredAs run_id (record st { status = cancelled })) run_id st cancelled
          _ (arrow_from is_running cancel_running)
          (WorkerStep.cancel (arrow_from is_running cancel_running) refl)
          (λ d _ g. get-put_self d run_id _))
        (λ _.
          Returns-bind _ _ (append_event_returns run_id "cancelled" end listed)
            (λ _. Returns-return tt (λ s h. h)))

  pub set_succeeded_returns :
      (result : Fields)
      → Returns
          (Inside all (With Anything run_id st))
          (set_succeeded default_policy run_id result)
          (λ done.
            Inside all (StoredAs run_id (record st { status = succeeded; result = some result })))
  unfolding set_succeeded moved
  set_succeeded_returns result =
      Returns-bind _ _
        (transition_returns
          (StoredAs run_id (record st { status = succeeded; result = some result })) run_id st
          succeeded _ (arrow_from is_running succeed) (WorkerStep.succeed result is_running refl)
          (λ d _ g. get-put_self d run_id _))
        (λ _.
          Returns-bind _ _ (append_event_returns run_id "run_succeeded" _ listed)
            (λ _. Returns-return tt (λ s h. h)))

  pub set_failed_returns :
      (error : String)
      → Returns
          (Inside all (With Anything run_id st))
          (set_failed default_policy run_id error)
          (λ done. Inside all (StoredAs run_id (record st { status = failed; error = some error })))
  unfolding set_failed moved
  set_failed_returns error =
      Returns-bind _ _
        (transition_returns (StoredAs run_id (record st { status = failed; error = some error }))
          run_id st failed _ (arrow_from is_running fail) (WorkerStep.fail error is_running refl)
          (λ d _ g. get-put_self d run_id _))
        (λ _.
          Returns-bind _ _ (append_event_returns run_id "run_failed" _ listed)
            (λ _. Returns-return tt (λ s h. h)))

-- Each statement that starts from what is known of a state.
pub Inside-self :
    (s : InMemoryRuntime) (run_id : Uuid) (st : RunStatus)
    → IsSound s
    → Dict.get s.internal_run_storage run_id ≡ some st
    → Inside (Dict.keys s.internal_run_storage) (With Anything run_id st) s
Inside-self s run_id st h g = record { sound = h; all_keys = refl; facts = (tt, g) }

pub listed_self :
    (d : Dict RunStatus) (run_id : Uuid) (st : RunStatus)
    → Dict.get d run_id ≡ some st
    → elem run_id (Dict.keys d) ≡ true
listed_self d run_id st g =
    let e = contains-eq-elem d run_id in rw e at (contains_of_get d run_id g)

-- None of them writes anything to a run that has no arrow to its target.
module _ (s : InMemoryRuntime) (run_id : Uuid) (st : RunStatus)
    (g : Dict.get s.internal_run_storage run_id ≡ some st) where
  pub set_failed_refused :
      (error : String)
      → ¬ Allowed st.status failed
      → set_failed default_policy run_id error s ≡ (raised (invalid_transition st.status failed), s)
  unfolding set_failed ◌>>=◌
  set_failed_refused error no_arrow = rw (transition_locked_refused run_id failed _ s st g no_arrow)

  pub set_succeeded_refused :
      (result : Fields)
      → ¬ Allowed st.status succeeded
      → set_succeeded default_policy run_id result s
        ≡ (raised (invalid_transition st.status succeeded), s)
  unfolding set_succeeded ◌>>=◌
  set_succeeded_refused result no_arrow =
      rw (transition_locked_refused run_id succeeded _ s st g no_arrow)

  pub set_cancelled_refused :
      ¬ Allowed st.status cancelled
      → set_cancelled default_policy run_id s ≡ (raised (invalid_transition st.status cancelled), s)
  unfolding set_cancelled set_cancelled_locked ◌>>=◌
  set_cancelled_refused no_arrow = rw (transition_locked_refused run_id cancelled _ s st g no_arrow)
