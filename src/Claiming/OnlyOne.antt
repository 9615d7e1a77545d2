-- ===== src/Claiming/OnlyOne.antt =====
-- `claim_run` when one stored run waits to be claimed, and none is running.
use python_agent_with_idp.Prelude.{
  ◌≡◌, ◌≢◌, refl, ap, subst, ◌∙◌, sym, ◌==◌, ==→eq, Bool-cases, inl, inr, String, true, false, some,
  List, [], ◌∷◌, elem, elem_self, All, All-map,
}
use python_agent_with_idp.Dict
use python_agent_with_idp.Dict.{Dict}
use python_agent_with_idp.Dict.Laws.{contains_of_get, contains-eq-elem, get_of_contains}
use python_agent_with_idp.Run.Code.{RunStatusCode, running, enqueued, same, same→eq}
use python_agent_with_idp.Run.Status.{Uuid, RunStatus, ClaimedRun}
use python_agent_with_idp.Exec.{returned, return, ◌>>=◌}
use python_agent_with_idp.Exec.Returned.{returned_eq, bind-Parts}
use python_agent_with_idp.Policy.{default_policy}
use python_agent_with_idp.Runtime.{InMemoryRuntime, run_at_there}
use python_agent_with_idp.Calls.Sound.{IsSound}
use python_agent_with_idp.Processing.{
  recover_if_expired, recover_loop, claim_enqueued, claim_loop, claim_run,
}
use python_agent_with_idp.Claiming.Recovery.{Anything}
use python_agent_with_idp.Claiming.Claim.{IsClaimOf}
use python_agent_with_idp.Claiming.Loop.{claim_enqueued_returns}

other_code : (a b : RunStatusCode) → a ≢ b → same a b ≡ false
other_code a b ne = elim (Bool-cases (same a b)) [
  | inl equal ↦ absurd (ne (same→eq a b equal))
  | inr other ↦ other
]

module _ (worker_id : String) (s : InMemoryRuntime) where
  -- The stored run under a UUID, with what is known of it.
  abbrev Stored : (RunStatus → Type 0) → Uuid → Type 0
  Stored P j = (st : RunStatus) × (Dict.get s.internal_run_storage j ≡ some st) × P st

  recover_nothing :
      (run_ids : List Uuid)
      → All (Stored (λ st. st.status ≢ running)) run_ids
      → recover_loop default_policy worker_id run_ids s ≡ (returned tt, s)
  unfolding recover_loop recover_if_expired ◌>>=◌
  recover_nothing [] h = refl
  recover_nothing (j ∷ run_ids) h =
      let (st, g, ne) = h.0 in
      rw (run_at_there j s g, other_code st.status running ne) (recover_nothing run_ids h.1)

  -- The runs under the listed UUIDs, from what every stored run is.
  All-Stored :
      (P : RunStatus → Type 0) (run_ids : List Uuid)
      → ((j : Uuid) (st : RunStatus) → Dict.get s.internal_run_storage j ≡ some st → P st)
      → All (λ j. Dict.contains s.internal_run_storage j ≡ true) run_ids
      → All (Stored P) run_ids
  All-Stored P [] h there = tt
  All-Stored P (j ∷ run_ids) h there =
      let (st, g) = get_of_contains s.internal_run_storage j there.0 in
      ((st, g, h j st g), All-Stored P run_ids h there.1)

  module _ (run_id : Uuid) (st : RunStatus) (g : Dict.get s.internal_run_storage run_id ≡ some st)
      (queued : st.status ≡ enqueued) (wanted : st.cancel_requested ≡ false) where
    -- Under every other UUID stands a run that is not enqueued.
    abbrev Others : Uuid → Type 0
    Others j = (j == run_id) ≡ false → Stored (λ st'. st'.status ≢ enqueued) j

    take_it :
        (run_ids : List Uuid)
        → claim_loop default_policy worker_id (run_id ∷ run_ids) s
          ≡ (claim_enqueued default_policy worker_id run_id >>= λ claimed. return (some claimed)) s
    unfolding claim_loop ◌>>=◌ same
    take_it run_ids = rw (run_at_there run_id s g, queued, wanted) refl

    claim_the_one :
        (run_ids : List Uuid)
        → All Others run_ids
        → elem run_id run_ids ≡ true
        → claim_loop default_policy worker_id run_ids s
          ≡ (claim_enqueued default_policy worker_id run_id >>= λ claimed. return (some claimed)) s
    unfolding claim_loop ◌>>=◌
    claim_the_one [] h listed = cc
    claim_the_one (j ∷ run_ids) h listed = elim (Bool-cases (j == run_id)) [
      | inl this ↦ rw (==→eq j run_id this) (take_it run_ids)
      | inr other ↦
          let (st', g', ne) = h.0 other in
          rw (run_at_there j s g', other_code st'.status enqueued ne)
            (claim_the_one run_ids h.1 (rw other at listed))
    ]

    Others-there :
        (run_ids : List Uuid)
        → ((j : Uuid) (st' : RunStatus)
            → (j == run_id) ≡ false
            → Dict.get s.internal_run_storage j ≡ some st'
            → st'.status ≢ enqueued)
        → All (λ j. Dict.contains s.internal_run_storage j ≡ true) run_ids
        → All Others run_ids
    Others-there [] h there = tt
    Others-there (j ∷ run_ids) h there =
        let (st', g') = get_of_contains s.internal_run_storage j there.0 in
        ((λ other. (st', g', h j st' other g')), Others-there run_ids h there.1)

keys_there : (d : Dict RunStatus) → All (λ j. Dict.contains d j ≡ true) (Dict.keys d)
keys_there d =
    All-map (λ j. elem j (Dict.keys d) ≡ true) (λ j. Dict.contains d j ≡ true) (Dict.keys d)
      (λ j e. contains-eq-elem d j ∙ e) (elem_self (Dict.keys d))

claim_enqueued_id :
    (worker_id : String) (run_id : Uuid) (s : InMemoryRuntime) (claimed : ClaimedRun)
    → (claim_enqueued default_policy worker_id run_id s).0 ≡ returned claimed
    → claimed.id ≡ run_id
unfolding claim_enqueued
claim_enqueued_id worker_id run_id s claimed e =
    let left = (claim_enqueued default_policy worker_id run_id s).1 in
    let expiration = bind-Parts _ _ s claimed left (ap (λ r. (r, left)) e) in
    let transition = bind-Parts _ _ expiration.between claimed left expiration.second in
    let event = bind-Parts _ _ transition.between claimed left transition.second in
    let reading = bind-Parts _ _ event.between claimed left event.second in
    ap (λ (c : ClaimedRun). c.id) (sym (returned_eq (ap (λ r. r.0) reading.second)))

module _ (worker_id : String) (run_id : Uuid) (s : InMemoryRuntime) (st : RunStatus) where
  claim_run_takes :
      Dict.get s.internal_run_storage run_id ≡ some st
      → st.status ≡ enqueued
      → st.cancel_requested ≡ false
      → ((j : Uuid) (st' : RunStatus)
          → Dict.get s.internal_run_storage j ≡ some st'
          → st'.status ≢ running)
      → ((j : Uuid) (st' : RunStatus)
          → (j == run_id) ≡ false
          → Dict.get s.internal_run_storage j ≡ some st'
          → st'.status ≢ enqueued)
      → claim_run default_policy worker_id s
        ≡ (claim_enqueued default_policy worker_id run_id >>= λ claimed. return (some claimed)) s
  unfolding claim_run ◌>>=◌
  claim_run_takes g queued wanted not_running not_enqueued =
      let all = Dict.keys s.internal_run_storage in
      let there = keys_there s.internal_run_storage in
      rw
        (
          recover_nothing worker_id s all
              (All-Stored worker_id s (λ st'. st'.status ≢ running) all not_running there),
          claim_the_one worker_id s run_id st g queued wanted all
              (Others-there worker_id s run_id st g queued wanted all not_enqueued there)
              (sym (contains-eq-elem s.internal_run_storage run_id)
                ∙ contains_of_get s.internal_run_storage run_id g),
        )
        refl

  after_enqueued :
      (claimed : ClaimedRun)
      → (claim_enqueued default_policy worker_id run_id s).0 ≡ returned claimed
      → (claim_enqueued default_policy worker_id run_id >>= λ c. return (some c)) s
        ≡ (returned (some claimed), (claim_enqueued default_policy worker_id run_id s).1)
  unfolding ◌>>=◌
  after_enqueued claimed e = rw e refl

  -- When no other stored run is running or enqueued, `claim_run` takes the one that is enqueued
  -- and wanted.
  pub the_one_is_claimed :
      IsSound s
      → Dict.get s.internal_run_storage run_id ≡ some st
      → st.status ≡ enqueued
      → st.cancel_requested ≡ false
      → ((j : Uuid) (st' : RunStatus)
          → Dict.get s.internal_run_storage j ≡ some st'
          → st'.status ≢ running)
      → ((j : Uuid) (st' : RunStatus)
          → (j == run_id) ≡ false
          → Dict.get s.internal_run_storage j ≡ some st'
          → st'.status ≢ enqueued)
      → (claimed : ClaimedRun) × ((claim_run default_policy worker_id s).0
          ≡ returned (some claimed))
        × (claimed.id ≡ run_id)
        × IsClaimOf worker_id claimed (claim_run default_policy worker_id s).1.internal_run_storage
  the_one_is_claimed sound g queued wanted not_running not_enqueued =
      let (claimed, e, inside) =
        (claim_enqueued_returns Anything worker_id run_id st
            (sym (contains-eq-elem s.internal_run_storage run_id)
              ∙ contains_of_get s.internal_run_storage run_id g)
            queued wanted).run
          s (record { sound = sound; all_keys = refl; facts = (tt, g) }) in
      let taken =
        claim_run_takes g queued wanted not_running not_enqueued ∙ after_enqueued claimed e in
      (
        claimed,
        ap (λ r. r.0) taken,
        claim_enqueued_id worker_id run_id s claimed e,
        subst (λ (r : InMemoryRuntime). IsClaimOf worker_id claimed r.internal_run_storage)
            (sym (ap (λ r. r.1) taken)) inside.facts,
      )
