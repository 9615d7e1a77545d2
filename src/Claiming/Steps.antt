-- ===== src/Claiming/Steps.antt =====
-- The statements of `claim_run` in a sound state, by the rules for total correctness.
use python_agent_with_idp.Prelude.{
  ◌==◌, ◌≡◌, refl, ap, ◌∙◌, String, true, false, Option, none, some, List, elem,
}
use python_agent_with_idp.Dict
use python_agent_with_idp.Dict.{Dict}
use python_agent_with_idp.Dict.Laws.{
  get_of_contains, contains-eq-elem, contains_of_get, keys-put_there,
}
use python_agent_with_idp.Json.{Fields}
use python_agent_with_idp.Run.Code.{RunStatusCode}
use python_agent_with_idp.Run.Status.{Uuid, Timestamp, RunStatus}
use python_agent_with_idp.Exec.Returns.{Returns, Returns-bind, Returns-return, Returns-if}
use python_agent_with_idp.Policy.{default_policy}
use python_agent_with_idp.Policy.Allowed.{Allowed}
use python_agent_with_idp.Request.{TransitionRequestParams}
use python_agent_with_idp.EventLog.IsOrdered.{append_there}
use python_agent_with_idp.Runtime.{InMemoryRuntime, run_at, run_at_there, read_clock, append_event}
use python_agent_with_idp.Lifecycle.{WorkerStep}
use python_agent_with_idp.Transition.{
  moved, transition_locked, expired_at, has_claim_expired, get_new_expiration_ts,
}
use python_agent_with_idp.Transition.Exact.{transition_locked_taken}
use python_agent_with_idp.Calls.Sound.{
  IsSound, append_event-IsSound, IsSound-IsPassive, worker-IsSound,
}

-- The state inside `claim_run`: sound, with the keys `all`, and with `D` of the runs.
pub record Inside (all : List Uuid) (D : Dict RunStatus → Type 0) (s : InMemoryRuntime)
    : Type 0 where
  pub sound : IsSound s
  pub all_keys : Dict.keys s.internal_run_storage ≡ all
  pub facts : D s.internal_run_storage

-- `D`, and what the run `run_id` is.
abbrev pub With : (Dict RunStatus → Type 0) → Uuid → RunStatus → Dict RunStatus → Type 0
With D run_id cur d = D d × (Dict.get d run_id ≡ some cur)

module _ {all : List Uuid} {D : Dict RunStatus → Type 0} where
  stored :
      (run_id : Uuid) (s : InMemoryRuntime)
      → elem run_id all ≡ true
      → Inside all D s
      → Dict.contains s.internal_run_storage run_id ≡ true
  stored run_id s listed h =
      contains-eq-elem s.internal_run_storage run_id ∙ ap (elem run_id) h.all_keys ∙ listed

  pub append_event_returns :
      (run_id : Uuid) (event_type : String) (payload : Fields)
      → elem run_id all ≡ true
      → Returns (Inside all D) (append_event run_id event_type payload) (λ e. Inside all D)
  unfolding append_event
  append_event_returns run_id event_type payload listed = record {
    run = λ s h.
        let log = s.internal_event_logs in
        let (events, g) =
          get_of_contains log.internal_run_events run_id
            (h.sound.streams run_id (stored run_id s listed h)) in
        (
          _,
          ap (λ p. p.0)
              (append_there run_id event_type payload (s.clock 0) log events h.sound.ordered g),
          record {
            sound = (append_event-IsSound run_id event_type payload).after s h.sound;
            all_keys = h.all_keys;
            facts = h.facts;
          },
        );
  }

  pub run_at_returns :
      (run_id : Uuid)
      → elem run_id all ≡ true
      → Returns (Inside all D) (run_at run_id) (λ st. Inside all (With D run_id st))
  run_at_returns run_id listed = record {
    run = λ s h.
        let (st, g) = get_of_contains s.internal_run_storage run_id (stored run_id s listed h) in
        (
          st,
          rw (run_at_there run_id s g),
          rw (run_at_there run_id s g)
              (record { sound = h.sound; all_keys = h.all_keys; facts = (h.facts, g) }),
        );
  }

  read_clock_returns : Returns (Inside all D) read_clock (λ now. Inside all D)
  unfolding read_clock
  read_clock_returns = record {
    run = λ s h. (
      _,
      refl,
      record {
        sound = IsSound-IsPassive.reads.after s h.sound;
        all_keys = h.all_keys;
        facts = h.facts;
      },
    );
  }

  pub get_new_expiration_ts_returns :
      Returns (Inside all D) get_new_expiration_ts (λ until. Inside all D)
  unfolding get_new_expiration_ts
  get_new_expiration_ts_returns =
      Returns-bind _ _ read_clock_returns (λ now. Returns-return _ (λ s h. h))

  expired_at_returns :
      (expiration : Option Timestamp)
      → Returns (Inside all D) (expired_at expiration) (λ expired. Inside all D)
  unfolding expired_at
  expired_at_returns none = Returns-return false (λ s h. h)
  expired_at_returns (some expiration) =
      Returns-if (expiration == 0) _ _ (λ _. Returns-return false (λ s h. h))
        (λ _. Returns-bind _ _ read_clock_returns (λ now. Returns-return _ (λ s h. h)))

  pub has_claim_expired_returns :
      (st : RunStatus) → Returns (Inside all D) (has_claim_expired st) (λ expired. Inside all D)
  unfolding has_claim_expired
  has_claim_expired_returns st = expired_at_returns st.claim_expiration_unix_ts

  -- A step of the life cycle that the policy allows, from what the run is known to be.
  pub transition_returns :
      (E : Dict RunStatus → Type 0) (run_id : Uuid) (cur : RunStatus) (target : RunStatusCode)
      (request : TransitionRequestParams)
      → Allowed cur.status target
      → WorkerStep cur (moved cur target request)
      → ((d : Dict RunStatus)
          → D d
          → Dict.get d run_id ≡ some cur
          → E (Dict.put d run_id (moved cur target request)))
      → Returns
          (Inside all (With D run_id cur))
          (transition_locked default_policy run_id target (some request))
          (λ done. Inside all E)
  transition_returns E run_id cur target request arrow step facts = record {
    run = λ s h.
        let e = transition_locked_taken run_id target (some request) s cur h.facts.1 arrow in
        (
          tt,
          ap (λ p. p.0) e,
          rw e (record {
            sound = worker-IsSound s run_id cur _ h.sound h.facts.1 step;
            all_keys =
                keys-put_there s.internal_run_storage run_id _
                  (contains_of_get s.internal_run_storage run_id h.facts.1)
                ∙ h.all_keys;
            facts = facts s.internal_run_storage h.facts.0 h.facts.1;
          }),
        );
  }
