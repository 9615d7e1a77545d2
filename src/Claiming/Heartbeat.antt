-- ===== src/Claiming/Heartbeat.antt =====
-- `heartbeat`, at a stored run in a sound state.
use python_agent_with_idp.Prelude.{
  ◌+◌, ◌≡◌, ◌≢◌, refl, ap, ◌∙◌, String, true, false, not, if◌then◌else◌, Option, some, Bool-cases,
  inl, inr, ◌⊎◌, eq_iff, arith,
}
use python_agent_with_idp.Dict
use python_agent_with_idp.Dict.Laws.{contains_of_get, get_of_contains}
use python_agent_with_idp.Json.{Fields, end, field, str}
use python_agent_with_idp.Run.Code.{RunStatusCode, running, cancelled, same, same→eq}
use python_agent_with_idp.Run.Status.{Uuid, Timestamp, RunStatus, RunEvent}
use python_agent_with_idp.Error.{run_lease_lost}
use python_agent_with_idp.Exec.{Exec, return, returned, raised, ◌>>=◌}
use python_agent_with_idp.EventLog.IsOrdered.{append_there}
use python_agent_with_idp.Runtime.{InMemoryRuntime, append_event, run_at_there, read_clock, set_run}
use python_agent_with_idp.Transition.{lease, get_new_expiration_ts}
use python_agent_with_idp.Conformance.Moves.{is_owner_inverse}
use python_agent_with_idp.Writes.{write}
use python_agent_with_idp.Calls.Sound.{IsSound}
use python_agent_with_idp.Processing.{heartbeat, is_owner, lose_claim, renew_claim}

-- An event can be appended for every stored run.
pub append_event_there :
    (s : InMemoryRuntime) (run_id : Uuid) (st : RunStatus) (event_type : String) (payload : Fields)
    → IsSound s
    → Dict.get s.internal_run_storage run_id ≡ some st
    → (e : RunEvent) × ((append_event run_id event_type payload s).0 ≡ returned e)
unfolding append_event
append_event_there s run_id st event_type payload sound g =
    let log = s.internal_event_logs in
    let (events, h) =
      get_of_contains log.internal_run_events run_id
        (sound.streams run_id (contains_of_get s.internal_run_storage run_id g)) in
    (
      _,
      ap (λ p. p.0) (append_there run_id event_type payload (s.clock 0) log events sound.ordered h),
    )

-- The record that the owner's heartbeat writes.
abbrev pub renewed : RunStatus → Timestamp → RunStatus
renewed st now = record st { claim_expiration_unix_ts = some (now + lease) }

is_owner_self : (worker_id : String) → is_owner (some worker_id) worker_id ≡ true
unfolding is_owner
is_owner_self worker_id = (eq_iff worker_id worker_id).1 refl

not_owner :
    (o : Option String) (worker_id : String) → is_owner o worker_id ≡ false → o ≢ some worker_id
not_owner o worker_id h e =
    let own = is_owner_self worker_id in
    let owns : is_owner o worker_id ≡ true = ap (λ o'. is_owner o' worker_id) e ∙ own in cc

is_not_code : (a : RunStatusCode) → same a running ≡ false → a ≢ running
unfolding same
is_not_code a h = ground arith

running_codes :
    (st : RunStatus)
    → st.status ≡ running
    → (same st.status cancelled ≡ false) × (same st.status running ≡ true)
unfolding same
running_codes st e = ground arith

owned :
    (st : RunStatus) (worker_id : String)
    → st.claimed_worker ≡ some worker_id
    → is_owner st.claimed_worker worker_id ≡ true
owned st worker_id e = ap (λ o. is_owner o worker_id) e ∙ is_owner_self worker_id

returned_as_is :
    (st : RunStatus)
    → st.status ≢ running
    → (m : Exec InMemoryRuntime RunStatus) (s : InMemoryRuntime)
    → (if same st.status cancelled
          then return st
          else if not (same st.status running)
          then return st
          else m)
        s
      ≡ (returned st, s)
unfolding same
returned_as_is st idle m s = ground arith

renew_exact :
    (s : InMemoryRuntime) (run_id : Uuid) (worker_id : String) (st : RunStatus)
    → st.status ≡ running
    → st.claimed_worker ≡ some worker_id
    → renew_claim run_id worker_id st s
      ≡ (returned (renewed st (s.clock 0)), write (read_clock s).1 run_id (renewed st (s.clock 0)))
unfolding renew_claim get_new_expiration_ts read_clock set_run ◌>>=◌
renew_exact s run_id worker_id st is_running owner = rw (is_running, owner) refl

lose_raises :
    (s : InMemoryRuntime) (run_id : Uuid) (worker_id : String) (st : RunStatus)
    → IsSound s
    → Dict.get s.internal_run_storage run_id ≡ some st
    → ((lose_claim run_id worker_id s).0 ≡ raised (run_lease_lost run_id worker_id))
      × ((lose_claim run_id worker_id s).1.internal_run_storage ≡ s.internal_run_storage)
unfolding lose_claim ◌>>=◌ append_event
lose_raises s run_id worker_id st sound g =
    let (e, appended) =
      append_event_there s run_id st "claim_lost" (field "worker" (str worker_id) end) sound g in
    rw appended (refl, refl)

module _ (s : InMemoryRuntime) (run_id : Uuid) (worker_id : String) (st : RunStatus)
    (sound : IsSound s) (g : Dict.get s.internal_run_storage run_id ≡ some st) where
  heartbeat_idle : st.status ≢ running → heartbeat run_id worker_id s ≡ (returned st, s)
  unfolding heartbeat renew_claim lose_claim ◌>>=◌
  heartbeat_idle idle = rw (run_at_there run_id s g) (returned_as_is st idle _ s)

  pub heartbeat_owner :
      st.status ≡ running
      → st.claimed_worker ≡ some worker_id
      → heartbeat run_id worker_id s ≡ (
        returned (renewed st (s.clock 0)),
        write (read_clock s).1 run_id (renewed st (s.clock 0)),
      )
  unfolding heartbeat renew_claim lose_claim ◌>>=◌
  heartbeat_owner is_running owner =
      rw
        (
          run_at_there run_id s g,
          (running_codes st is_running).0,
          (running_codes st is_running).1,
          owned st worker_id owner,
        )
        (renew_exact s run_id worker_id st is_running owner)

  heartbeat_other :
      st.status ≡ running
      → is_owner st.claimed_worker worker_id ≡ false
      → ((heartbeat run_id worker_id s).0 ≡ raised (run_lease_lost run_id worker_id))
        × ((heartbeat run_id worker_id s).1.internal_run_storage ≡ s.internal_run_storage)
  unfolding heartbeat renew_claim lose_claim ◌>>=◌
  heartbeat_other is_running other =
      rw
        (
          run_at_there run_id s g,
          (running_codes st is_running).0,
          (running_codes st is_running).1,
          other,
        )
        (lose_raises s run_id worker_id st sound g)

  -- The heartbeat of a stored run in a sound state is one of three. A run that is not running
  -- is returned as it is. The owner of a running run gets thirty more seconds from the reading
  -- of the clock, and nothing else of the run changes. Anybody else gets RunLeaseLostError, and
  -- no run is written.
  pub heartbeat_exact :
      ((st.status ≢ running) × (heartbeat run_id worker_id s ≡ (returned st, s)))
      ⊎ ((st.status ≡ running)
          × (st.claimed_worker ≡ some worker_id)
          × (heartbeat run_id worker_id s ≡ (
            returned (renewed st (s.clock 0)),
            write (read_clock s).1 run_id (renewed st (s.clock 0)),
          )))
      ⊎ ((st.status ≡ running)
          × (st.claimed_worker ≢ some worker_id)
          × ((heartbeat run_id worker_id s).0 ≡ raised (run_lease_lost run_id worker_id))
          × ((heartbeat run_id worker_id s).1.internal_run_storage ≡ s.internal_run_storage))
  heartbeat_exact = elim (Bool-cases (same st.status running)) [
    | inr idle ↦ let ne = is_not_code st.status idle in inl (ne, heartbeat_idle ne)
    | inl e ↦
        let is_running = same→eq st.status running e in
        elim (Bool-cases (is_owner st.claimed_worker worker_id)) [
          | inl own ↦
              let owner = is_owner_inverse st.claimed_worker worker_id (rw own refl) in
              inr (inl (is_running, owner, heartbeat_owner is_running owner))
          | inr other ↦
              let (raises, unwritten) = heartbeat_other is_running other in
              inr (inr (is_running, not_owner st.claimed_worker worker_id other, raises, unwritten))
        ]
  ]
