-- ===== src/Conformance/Moves.antt =====
-- Rules for `_transition_locked`, and what the tests of the processing store tell.
use python_agent_with_idp.Prelude.{
  ℕ, ◌+◌, ==-refl, ◌≡◌, refl, String, not, false, Option, none, some, inl, inr, arith, eq_iff,
}
use python_agent_with_idp.Dict
use python_agent_with_idp.Dict.Laws.{get-put}
use python_agent_with_idp.Run.Code.{RunStatusCode, running, succeeded, failed, same, same→eq}
use python_agent_with_idp.Run.Status.{Uuid, Timestamp, RunStatus}
use python_agent_with_idp.Exec.{returned}
use python_agent_with_idp.Exec.Leads.{Leads, Keeps, Leads-bind-lift, keeps_rules}
use python_agent_with_idp.Policy.{validate, default_policy}
use python_agent_with_idp.Policy.Allowed.{Allowed, Allowed-validate}
use python_agent_with_idp.Request.{TransitionRequestParams}
use python_agent_with_idp.Runtime.{InMemoryRuntime}
use python_agent_with_idp.Writes.{write, At, IsPassive, Leads-set_run, Leads-run_at}
use python_agent_with_idp.Transition.{
  moved, or_no_params, transition_locked, has_claim_expired, get_new_expiration_ts,
}
use python_agent_with_idp.Transition.Exact.{transition_locked_taken, has_claim_expired_reads}
use python_agent_with_idp.Processing.{plus_one, is_owner}
use python_agent_with_idp.Lifecycle.{WorkerStep, renew}

module _ (P : InMemoryRuntime → Type 0) where
  -- A transition leads from `P` to `Q` if writing the moved record does, and a refusal does.
  pub transition_locked-Leads :
      (Q : InMemoryRuntime → Type 0) (run_id : Uuid) (target : RunStatusCode)
      (request : Option TransitionRequestParams)
      → ((s : InMemoryRuntime) (cur : RunStatus)
          → P s
          → Dict.get s.internal_run_storage run_id ≡ some cur
          → Allowed cur.status target
          → Q (write s run_id (moved cur target (or_no_params request))))
      → ((s : InMemoryRuntime) → P s → Q s)
      → Leads P (transition_locked default_policy run_id target request) Q
  unfolding transition_locked
  transition_locked-Leads Q run_id target request closed le =
      Leads-run_at P Q run_id _
        (λ cur.
          Leads-bind-lift (validate default_policy cur target) _
            (λ _ accepted.
              Leads-set_run (At P run_id cur) Q run_id _
                (λ s h. closed s cur h.0 h.1 (Allowed-validate cur target accepted)))
            (λ s h. le s h.0))
        le

  -- An arrow from what the run is known to be is taken.
  pub transition_known :
      (Q : InMemoryRuntime → Type 0) (run_id : Uuid) (cur : RunStatus) (target : RunStatusCode)
      (request : Option TransitionRequestParams)
      → Allowed cur.status target
      → ((s : InMemoryRuntime)
          → P s
          → Dict.get s.internal_run_storage run_id ≡ some cur
          → Q (write s run_id (moved cur target (or_no_params request))))
      → Leads (At P run_id cur) (transition_locked default_policy run_id target request) Q
  transition_known Q run_id cur target request arrow closed = record {
    after = λ s h.
        rw (transition_locked_taken run_id target request s cur h.1 arrow) (closed s h.0 h.1);
  }

module _ (P : InMemoryRuntime → Type 0) (passive : IsPassive P) where
  pub has_claim_expired-Keeps : (run_status : RunStatus) → Keeps P (has_claim_expired run_status)
  has_claim_expired-Keeps run_status = record {
    after = λ s h. elim (has_claim_expired_reads run_status s) [
      | inl e ↦ rw e h
      | inr e ↦ rw e (passive.reads.after s h)
    ];
  }

  pub get_new_expiration_ts-Keeps : Keeps P get_new_expiration_ts
  unfolding get_new_expiration_ts
  get_new_expiration_ts-Keeps = search (keeps_rules, passive.reads)

module _ (P : InMemoryRuntime → Type 0)
    (closed : (s : InMemoryRuntime) (run_id : Uuid) (cur new : RunStatus)
      → P s
      → Dict.get s.internal_run_storage run_id ≡ some cur
      → WorkerStep cur new
      → P (write s run_id new)) where
  -- A step from what the run is known to be, after which it is known to be the new record.
  pub step_known :
      (run_id : Uuid) (cur : RunStatus) (target : RunStatusCode) (request : TransitionRequestParams)
      → Allowed cur.status target
      → WorkerStep cur (moved cur target request)
      → Leads
          (At P run_id cur)
          (transition_locked default_policy run_id target (some request))
          (At P run_id (moved cur target request))
  step_known run_id cur target request arrow step =
      transition_known P _ run_id cur target (some request) arrow
        (λ s h g. (closed s run_id cur _ h g step, simp (get-put, ==-refl)))

pub plus_one_inverse :
    (o r : Option ℕ) → plus_one o ≡ returned r → (n : ℕ) × (o ≡ some n) × (r ≡ some (n + 1))
unfolding plus_one
plus_one_inverse none r h = cc
plus_one_inverse (some n) r h = (n, refl, cc)

pub is_code : (a b : RunStatusCode) → not (same a b) ≡ false → a ≡ b
is_code a b h = ground (arith, same→eq a b)

pub fail_source : {from : RunStatusCode} → Allowed from failed → from ≡ running
fail_source Allowed.fail = refl

pub succeed_source : {from : RunStatusCode} → Allowed from succeeded → from ≡ running
succeed_source Allowed.succeed = refl

pub is_owner_inverse :
    (o : Option String) (worker_id : String)
    → not (is_owner o worker_id) ≡ false
    → o ≡ some worker_id
unfolding is_owner
is_owner_inverse none worker_id h = cc
is_owner_inverse (some owner) worker_id h = ground (arith, eq_iff owner worker_id)

pub renewal :
    (st : RunStatus) (worker_id : String) (until : Timestamp)
    → st.status ≡ running
    → st.claimed_worker ≡ some worker_id
    → WorkerStep st (record st {
      status = running;
      claimed_worker = some worker_id;
      claim_expiration_unix_ts = some until;
    })
renewal st worker_id until is_running owner = renew worker_id until is_running owner (ground arith)

pub arrow_from : {code from to : RunStatusCode} → code ≡ from → Allowed from to → Allowed code to
arrow_from e a = rw e a
