-- ===== src/Claiming/Claim.antt =====
-- What a claim is, and which runs may still be enqueued.
use python_agent_with_idp.Prelude.{
  ◌≡◌, ◌≢◌, refl, sym, ap, ◌∙◌, some_eq, String, true, false, not, Option, none, some, List, ◌∷◌,
  elem, arith, ◌==◌, ==→eq, Bool-cases, inl, inr,
}
use python_agent_with_idp.Dict
use python_agent_with_idp.Dict.{Dict}
use python_agent_with_idp.Dict.Laws.{get-put, contains-eq-elem, get_of_not_contains}
use python_agent_with_idp.Run.Code.{RunStatusCode, running, enqueued, same}
use python_agent_with_idp.Run.Status.{Timestamp, ClaimType, Uuid, RunStatus, ClaimedRun}

-- No run is stored as enqueued under this UUID.
abbrev pub NotEnqueued : Option RunStatus → Type 0
NotEnqueued none = Unit
NotEnqueued (some st) = st.status ≢ enqueued

-- Nothing but the listed UUIDs may be enqueued.
abbrev pub OnlyEnqueued : List Uuid → Dict RunStatus → Type 0
OnlyEnqueued run_ids d = (j : Uuid) → elem j run_ids ≡ false → NotEnqueued (Dict.get d j)

-- What a claim by `worker_id` is: the stored run, running, its own, and not to be cancelled.
pub record IsClaimOf (worker_id : String) (claimed : ClaimedRun) (d : Dict RunStatus) : Type 0 where
  pub stored : Dict.get d claimed.id ≡ some claimed.run_status
  pub is_running : claimed.run_status.status ≡ running
  pub owner : claimed.run_status.claimed_worker ≡ some worker_id
  pub wanted : claimed.run_status.cancel_requested ≡ false
  pub kind : claimed.claim_type ≡ ClaimType.enqueued

-- What the result of `claim_run` says of the stored runs.
abbrev pub ClaimResult : String → Option ClaimedRun → Dict RunStatus → Type 0
ClaimResult worker_id none d = (j : Uuid) → NotEnqueued (Dict.get d j)
ClaimResult worker_id (some claimed) d = IsClaimOf worker_id claimed d

pub claim_of :
    (worker_id : String) (run_id : Uuid) (st st' : RunStatus) (until : Timestamp)
    (d : Dict RunStatus)
    → st.cancel_requested ≡ false
    → Dict.get d run_id
      ≡ some (record st {
        status = running;
        claimed_worker = some worker_id;
        claim_expiration_unix_ts = some until;
      })
    → Dict.get d run_id ≡ some st'
    → IsClaimOf worker_id
        (record { id = run_id; claim_type = ClaimType.enqueued; run_status = st' })
        d
claim_of worker_id run_id st st' until d wanted written read =
    let e = some_eq (sym read ∙ written) in
    record {
      stored = read;
      is_running = ap (λ (r : RunStatus). r.status) e;
      owner = ap (λ (r : RunStatus). r.claimed_worker) e;
      wanted = ap (λ (r : RunStatus). r.cancel_requested) e ∙ wanted;
      kind = refl;
    }

pub NotEnqueued-put :
    (run_ids : List Uuid) (run_id j : Uuid) (new : RunStatus) (d : Dict RunStatus)
    → new.status ≢ enqueued
    → OnlyEnqueued (run_id ∷ run_ids) d
    → elem j run_ids ≡ false
    → NotEnqueued (Dict.get (Dict.put d run_id new) j)
NotEnqueued-put run_ids run_id j new d ne h unlisted = rw get-put (elim (Bool-cases (run_id == j)) [
  | inl same ↦ rw same ne
  | inr other ↦ rw other (h j (rw other unlisted))
])

-- A run that is not enqueued leaves the list.
pub OnlyEnqueued-skip :
    (run_ids : List Uuid) (run_id : Uuid) (st : RunStatus) (d : Dict RunStatus)
    → st.status ≢ enqueued
    → OnlyEnqueued (run_id ∷ run_ids) d
    → Dict.get d run_id ≡ some st
    → OnlyEnqueued run_ids d
OnlyEnqueued-skip run_ids run_id st d ne h g j unlisted = elim (Bool-cases (run_id == j)) [
  | inl same ↦ rw (← ==→eq run_id j same, g) ne
  | inr other ↦ h j (rw other unlisted)
]

-- Unlisted keys are not stored.
pub OnlyEnqueued-keys : (d : Dict RunStatus) → OnlyEnqueued (Dict.keys d) d
OnlyEnqueued-keys d j unlisted = rw (get_of_not_contains d j (contains-eq-elem d j ∙ unlisted)) tt

pub is_not_code : (a b : RunStatusCode) → not (same a b) ≡ true → a ≢ b
unfolding same
is_not_code a b h = ground arith
