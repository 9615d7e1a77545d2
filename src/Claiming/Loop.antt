-- ===== src/Claiming/Loop.antt =====
-- The second loop of `claim_run`, and `claim_run` as a whole.
use python_agent_with_idp.Prelude.{
  ◌≡◌, refl, subst, String, true, false, not, Option, none, some, List, [], ◌∷◌, elem, elem_self,
  All,
}
use python_agent_with_idp.Dict
use python_agent_with_idp.Dict.{Dict}
use python_agent_with_idp.Dict.Laws.{get-put_self}
use python_agent_with_idp.Json.{end}
use python_agent_with_idp.Run.Code.{running, enqueued, cancelled, same}
use python_agent_with_idp.Run.Status.{Uuid, RunStatus, ClaimedRun}
use python_agent_with_idp.Exec.{returned, gets, ◌>>=◌}
use python_agent_with_idp.Exec.Returns.{
  Returns, Returns-bind, Returns-return, Returns-if, Returns-strengthen,
}
use python_agent_with_idp.Policy.{default_policy}
use python_agent_with_idp.Policy.Allowed.{claim, cancel_enqueued}
use python_agent_with_idp.Runtime.{InMemoryRuntime}
use python_agent_with_idp.Lifecycle.{WorkerStep}
use python_agent_with_idp.Transition.{moved}
use python_agent_with_idp.Conformance.Moves.{arrow_from, is_code}
use python_agent_with_idp.Calls.Sound.{IsSound}
use python_agent_with_idp.Processing.{
  recover_loop, set_cancelled_locked, claim_enqueued, claim_loop, claim_run,
}
use python_agent_with_idp.Claiming.Steps.{
  Inside, With, append_event_returns, run_at_returns, get_new_expiration_ts_returns,
  transition_returns,
}
use python_agent_with_idp.Claiming.Recovery.{Anything, recover_loop_returns}
use python_agent_with_idp.Claiming.Claim.{
  OnlyEnqueued, IsClaimOf, ClaimResult, claim_of, NotEnqueued-put, OnlyEnqueued-skip,
  OnlyEnqueued-keys, is_not_code,
}

module _ {all : List Uuid} where
  pub claim_enqueued_returns :
      (D : Dict RunStatus → Type 0) (worker_id : String) (run_id : Uuid) (st : RunStatus)
      → elem run_id all ≡ true
      → st.status ≡ enqueued
      → st.cancel_requested ≡ false
      → Returns
          (Inside all (With D run_id st))
          (claim_enqueued default_policy worker_id run_id)
          (λ claimed. Inside all (IsClaimOf worker_id claimed))
  unfolding claim_enqueued moved
  claim_enqueued_returns D worker_id run_id st listed is_enqueued wanted =
      Returns-bind _ _ get_new_expiration_ts_returns (λ until.
        let new : RunStatus = record st {
          status = running;
          claimed_worker = some worker_id;
          claim_expiration_unix_ts = some until;
        } in
        Returns-bind _ _
          (transition_returns (With Anything run_id new) run_id st running _
            (arrow_from is_enqueued claim)
            (WorkerStep.claim worker_id until is_enqueued wanted refl)
            (λ d h g. (tt, get-put_self d run_id new)))
          (λ _. Returns-bind _ _ (append_event_returns run_id "claimed" _ listed) (λ _.
            Returns-bind _ _ (run_at_returns run_id listed) (λ st'. Returns-return _ (λ s h.
              record {
                sound = h.sound;
                all_keys = h.all_keys;
                facts =
                    claim_of worker_id run_id st st' until s.internal_run_storage wanted h.facts.0.1
                      h.facts.1;
              })))))

  -- After the cancellation of a run that was asked to be cancelled, it is no longer enqueued.
  cancel_returns :
      (run_ids : List Uuid) (run_id : Uuid) (st : RunStatus)
      → elem run_id all ≡ true
      → st.status ≡ enqueued
      → Returns
          (Inside all (With (OnlyEnqueued (run_id ∷ run_ids)) run_id st))
          (set_cancelled_locked default_policy run_id)
          (λ done. Inside all (OnlyEnqueued run_ids))
  unfolding set_cancelled_locked moved
  cancel_returns run_ids run_id st listed is_enqueued =
      Returns-bind _ _
        (transition_returns (OnlyEnqueued run_ids) run_id st cancelled _
          (arrow_from is_enqueued cancel_enqueued)
          (WorkerStep.cancel (arrow_from is_enqueued cancel_enqueued) refl)
          (λ d h g j unlisted. NotEnqueued-put run_ids run_id j _ d (λ e. cc) h unlisted))
        (λ _.
          Returns-bind _ _ (append_event_returns run_id "cancelled" end listed)
            (λ _. Returns-return tt (λ s h. h)))

  -- `claim_loop` and a claim as its last statement.
  claim_loop_returns :
      (worker_id : String) (run_ids : List Uuid)
      → All (λ run_id. elem run_id all ≡ true) run_ids
      → Returns
          (Inside all (OnlyEnqueued run_ids))
          (claim_loop default_policy worker_id run_ids)
          (λ result. Inside all (ClaimResult worker_id result))
  unfolding claim_loop
  claim_loop_returns worker_id [] listed =
      Returns-return none
        (λ s h. record { sound = h.sound; all_keys = h.all_keys; facts = λ j. h.facts j refl })
  claim_loop_returns worker_id (run_id ∷ run_ids) listed =
      let rest = claim_loop_returns worker_id run_ids listed.1 in
      Returns-bind _ _ (run_at_returns run_id listed.0) (λ st.
        Returns-if (not (same st.status enqueued)) _ _
          (λ other. Returns-strengthen rest (λ s h. record {
            sound = h.sound;
            all_keys = h.all_keys;
            facts =
                OnlyEnqueued-skip run_ids run_id st s.internal_run_storage
                  (is_not_code st.status enqueued other) h.facts.0 h.facts.1;
          }))
          (λ is_enqueued.
            Returns-if st.cancel_requested _ _
              (λ asked.
                Returns-bind _ _
                  (cancel_returns run_ids run_id st listed.0 (is_code _ _ is_enqueued)) (λ _. rest))
              (λ wanted.
                Returns-bind _ _
                  (claim_enqueued_returns (OnlyEnqueued (run_id ∷ run_ids)) worker_id run_id st
                    listed.0 (is_code _ _ is_enqueued) wanted)
                  (λ claimed. Returns-return (some claimed) (λ s h. h)))))

-- The second reading of the keys, and the loop over them.
claim_rest_returns :
    (worker_id : String) (all : List Uuid)
    → Returns
        (Inside all Anything)
        (gets (λ (s : InMemoryRuntime). Dict.keys s.internal_run_storage)
          >>= claim_loop default_policy worker_id)
        (λ result. Inside all (ClaimResult worker_id result))
unfolding ◌>>=◌
claim_rest_returns worker_id all = record {
  run = λ s h.
      let e = h.all_keys in
      rw e (
        (claim_loop_returns worker_id all (elem_self all)).run s (record {
          sound = h.sound;
          all_keys = e;
          facts =
              subst (λ run_ids. OnlyEnqueued run_ids s.internal_run_storage) e
                (OnlyEnqueued-keys s.internal_run_storage);
        }));
}

claim_body_returns :
    (worker_id : String) (all : List Uuid)
    → Returns
        (Inside all Anything)
        (recover_loop default_policy worker_id all >>= λ _.
          gets (λ (s : InMemoryRuntime). Dict.keys s.internal_run_storage)
          >>= claim_loop default_policy worker_id)
        (λ result. Inside all (ClaimResult worker_id result))
claim_body_returns worker_id all =
    Returns-bind _ _ (recover_loop_returns worker_id all (elem_self all))
      (λ _. claim_rest_returns worker_id all)

-- From a sound state `claim_run` does not raise. If it returns a claim, then the claimed run is
-- stored as running, owned by this worker, and nobody had asked to cancel it. If it returns none,
-- then no stored run is enqueued any more.
pub claim_run_total :
    (worker_id : String) (s : InMemoryRuntime)
    → IsSound s
    → (result : Option ClaimedRun) × ((claim_run default_policy worker_id s).0 ≡ returned result)
      × ClaimResult worker_id result (claim_run default_policy worker_id s).1.internal_run_storage
unfolding claim_run ◌>>=◌
claim_run_total worker_id s sound =
    let all = Dict.keys s.internal_run_storage in
    let (result, e, h) =
      (claim_body_returns worker_id all).run s
        (record { sound = sound; all_keys = refl; facts = tt }) in
    (result, e, h.facts)
