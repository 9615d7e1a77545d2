-- ===== src/Claiming/Recovery.antt =====
-- The recovery of abandoned runs, and the first loop of `claim_run`.
use python_agent_with_idp.Prelude.{
  ℕ, ◌+◌, ◌≡◌, ap, ◌∙◌, some_of, String, true, not, Option, some, List, [], ◌∷◌, elem, All, arith,
}
use python_agent_with_idp.Dict
use python_agent_with_idp.Dict.{Dict}
use python_agent_with_idp.Dict.Laws.{get-put_self, put-put, keys-put_there, contains_of_get}
use python_agent_with_idp.Json.{end}
use python_agent_with_idp.Run.Code.{running, timed_out, retrying, enqueued, same}
use python_agent_with_idp.Run.Status.{Uuid, RunStatus}
use python_agent_with_idp.Exec.{returned, ◌>>=◌}
use python_agent_with_idp.Exec.Returns.{Returns, Returns-bind, Returns-return, Returns-if}
use python_agent_with_idp.Policy.{default_policy}
use python_agent_with_idp.Policy.Allowed.{expire, retry, requeue}
use python_agent_with_idp.Runtime.{InMemoryRuntime}
use python_agent_with_idp.Writes.{write}
use python_agent_with_idp.Transition.{moved}
use python_agent_with_idp.Transition.Exact.{transition_locked_taken}
use python_agent_with_idp.Conformance.Moves.{arrow_from, is_code}
use python_agent_with_idp.Calls.Sound.{IsRunSound, write-IsSound}
use python_agent_with_idp.Processing.{
  plus_one, recover_expired_runs, recover_if_expired, recover_loop,
}
use python_agent_with_idp.Claiming.Steps.{
  Inside, With, append_event_returns, run_at_returns, has_claim_expired_returns,
}

-- The run as the recovery leaves it.
abbrev pub recovered : RunStatus → String → ℕ → RunStatus
recovered st worker_id n = record st {
  status = enqueued;
  claimed_worker = some worker_id;
  retry_count = some (n + 1);
}

plus_one-some : (o : Option ℕ) (n : ℕ) → o ≡ some n → plus_one o ≡ returned (some (n + 1))
unfolding plus_one
plus_one-some o n e = ground arith

-- Recovery puts a stored, running run whose retries are counted back to ENQUEUED, with one more
-- retry and the recovering worker noted on it. Its result, error, expiration and request to
-- cancel stay, and no other run is written.
pub recover_expired_runs_exact :
    (s : InMemoryRuntime) (run_id : Uuid) (st : RunStatus) (worker_id : String) (n : ℕ)
    → Dict.get s.internal_run_storage run_id ≡ some st
    → st.status ≡ running
    → st.retry_count ≡ some n
    → recover_expired_runs default_policy run_id st worker_id s
      ≡ (returned tt, write s run_id (recovered st worker_id n))
unfolding recover_expired_runs ◌>>=◌ moved
recover_expired_runs_exact s run_id st worker_id n g is_running counted =
    let st₁ : RunStatus = record st { status = timed_out; claimed_worker = some worker_id } in
    let st₂ : RunStatus = record st₁ { status = retrying; retry_count = some (n + 1) } in
    let s₁ : InMemoryRuntime = write s run_id st₁ in
    let s₂ : InMemoryRuntime = write s₁ run_id st₂ in
    rw (transition_locked_taken run_id timed_out _ s st g (arrow_from is_running expire)) (
      rw (plus_one-some st.retry_count n counted) (
        rw (transition_locked_taken run_id retrying _ s₁ st₁ (get-put_self _ run_id st₁) retry) (
          rw (transition_locked_taken run_id enqueued _ s₂ st₂ (get-put_self _ run_id st₂) requeue)
            (simp put-put))))

-- Nothing more is known of the runs.
abbrev pub Anything : Dict RunStatus → Type 0
Anything d = Unit

recovered-IsRunSound :
    (run_id : Uuid) (st : RunStatus) (worker_id : String) (n : ℕ)
    → IsRunSound run_id st
    → IsRunSound run_id (recovered st worker_id n)
recovered-IsRunSound run_id st worker_id n h = ground arith

recover_returns :
    {all : List Uuid} (run_id : Uuid) (st : RunStatus) (worker_id : String) (n : ℕ)
    → st.status ≡ running
    → st.retry_count ≡ some n
    → Returns
        (Inside all (With Anything run_id st))
        (recover_expired_runs default_policy run_id st worker_id)
        (λ done. Inside all Anything)
recover_returns run_id st worker_id n is_running counted = record {
  run = λ s h.
      let e = recover_expired_runs_exact s run_id st worker_id n h.facts.1 is_running counted in
      (
        tt,
        ap (λ p. p.0) e,
        rw e (record {
          sound =
              write-IsSound s run_id st (recovered st worker_id n) h.sound h.facts.1
                (recovered-IsRunSound run_id st worker_id n (h.sound.runs run_id st h.facts.1));
          all_keys =
              keys-put_there s.internal_run_storage run_id _
                (contains_of_get s.internal_run_storage run_id h.facts.1)
              ∙ h.all_keys;
          facts = tt;
        }),
      );
}

module _ {all : List Uuid} where
  release :
      (run_id : Uuid) (st : RunStatus) (s : InMemoryRuntime)
      → Inside all (With Anything run_id st) s
      → Inside all Anything s
  release run_id st s h = record { sound = h.sound; all_keys = h.all_keys; facts = tt }

  -- The retries are counted in a sound state, so that one can be added.
  recover_sound_returns :
      (run_id : Uuid) (st : RunStatus) (worker_id : String)
      → st.status ≡ running
      → Returns
          (Inside all (With Anything run_id st))
          (recover_expired_runs default_policy run_id st worker_id)
          (λ done. Inside all Anything)
  recover_sound_returns run_id st worker_id is_running = record {
    run = λ s h.
        let (n, counted) = some_of st.retry_count (h.sound.runs run_id st h.facts.1).counted in
        (recover_returns run_id st worker_id n is_running counted).run s h;
  }

  recover_if_expired_returns :
      (run_id : Uuid) (st : RunStatus) (worker_id : String)
      → elem run_id all ≡ true
      → Returns
          (Inside all (With Anything run_id st))
          (recover_if_expired default_policy worker_id run_id st)
          (λ done. Inside all Anything)
  unfolding recover_if_expired
  recover_if_expired_returns run_id st worker_id listed =
      Returns-if (not (same st.status running)) _ _ (λ _. Returns-return tt (release run_id st))
        (λ is_running. Returns-bind _ _ (has_claim_expired_returns st) (λ expired.
          Returns-if (not expired) _ _ (λ _. Returns-return tt (release run_id st))
            (λ _.
              Returns-bind _ _ (append_event_returns run_id "claim_expired" end listed)
                (λ _. recover_sound_returns run_id st worker_id (is_code _ _ is_running)))))

  pub recover_loop_returns :
      (worker_id : String) (run_ids : List Uuid)
      → All (λ run_id. elem run_id all ≡ true) run_ids
      → Returns
          (Inside all Anything)
          (recover_loop default_policy worker_id run_ids)
          (λ done. Inside all Anything)
  unfolding recover_loop
  recover_loop_returns worker_id [] listed = Returns-return tt (λ s h. h)
  recover_loop_returns worker_id (run_id ∷ run_ids) listed =
      Returns-bind _ _ (run_at_returns run_id listed.0) (λ st.
        Returns-bind _ _ (recover_if_expired_returns run_id st worker_id listed.0)
          (λ _. recover_loop_returns worker_id run_ids listed.1))
