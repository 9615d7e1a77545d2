-- ===== src/Calls/Follows.antt =====
-- Histories in the terms of the life cycle of one run.
use python_agent_with_idp.Prelude.{
  ◌⊎◌, true, ◌∙◌, ap, ◌≡◌, ◌≢◌, refl, Option, none, some, List, All, ==→eq, ==-ne, Bool-cases, inl,
  inr, ◌==◌,
}
use python_agent_with_idp.Dict
use python_agent_with_idp.Dict.{Dict}
use python_agent_with_idp.Dict.Laws.{get-put}
use python_agent_with_idp.Run.Status.{Uuid, RunStatus, RunRequest}
use python_agent_with_idp.Exec.Leads.{Keeps}
use python_agent_with_idp.Runtime.{InMemoryRuntime}
use python_agent_with_idp.Writes.{write, OnRuns, OnRuns-IsPassive, init_run_stream-Keeps}
use python_agent_with_idp.Lifecycle.{
  WorkerStep, IntakeStep, ◌⟶◌, by_worker, by_intake, ◌⟶*◌, here, next,
}
use python_agent_with_idp.Run.Code.{enqueued, cancelled}
use python_agent_with_idp.Lifecycle.Asked.{⟶*-asked}
use python_agent_with_idp.Lifecycle.Terminal.{IsTerminal, ⟶*-terminal}
use python_agent_with_idp.Intake.{new_run}
use python_agent_with_idp.Calls.{Call, OnNew, perform, perform_all}
use python_agent_with_idp.Calls.Invariant.{perform_keeps, perform_all_keeps}
use python_agent_with_idp.Conformance.Intake.{create_run-Leads}
use python_agent_with_idp.Intake

-- What the storage holds for a run that was `st`.
abbrev pub FollowsFrom : RunStatus → Option RunStatus → Type 0
FollowsFrom st none = ⊥
FollowsFrom st (some cur) = st ⟶* cur

module _ (run_id : Uuid) (st : RunStatus) where
  abbrev pub Follows : Dict RunStatus → Type 0
  Follows d = FollowsFrom st (Dict.get d run_id)

  Follows-put :
      (d : Dict RunStatus) (j : Uuid) (cur new : RunStatus)
      → Follows d
      → Dict.get d j ≡ some cur
      → cur ⟶ new
      → Follows (Dict.put d j new)
  Follows-put d j cur new f g step = rw get-put (elim (Bool-cases (j == run_id)) [
    | inl same ↦ rw same (next (let g' = rw (==→eq j run_id same) at g in rw g' at f) step)
    | inr other ↦ rw other f
  ])

  Follows-put_other :
      (d : Dict RunStatus) (j : Uuid) (new : RunStatus)
      → Follows d
      → j ≢ run_id
      → Follows (Dict.put d j new)
  Follows-put_other d j new f ne = rw get-put (rw (==-ne j run_id ne) f)

  Follows-worker :
      (s : InMemoryRuntime) (j : Uuid) (cur new : RunStatus)
      → OnRuns Follows s
      → Dict.get s.internal_run_storage j ≡ some cur
      → WorkerStep cur new
      → OnRuns Follows (write s j new)
  Follows-worker s j cur new f g step =
      Follows-put s.internal_run_storage j cur new f g (by_worker step)

  Follows-intake :
      (s : InMemoryRuntime) (j : Uuid) (cur new : RunStatus)
      → OnRuns Follows s
      → Dict.get s.internal_run_storage j ≡ some cur
      → IntakeStep cur new
      → OnRuns Follows (write s j new)
  Follows-intake s j cur new f g step =
      Follows-put s.internal_run_storage j cur new f g (by_intake step)

  Follows-create :
      (j : Uuid) (request : RunRequest)
      → j ≢ run_id
      → Keeps (OnRuns Follows) (Intake.create_run j request)
  Follows-create j request ne =
      create_run-Leads (OnRuns Follows) (OnRuns Follows) (OnRuns-IsPassive Follows) j request
        (init_run_stream-Keeps Follows j)
        (λ s f. Follows-put_other s.internal_run_storage j (new_run j) f ne)

pub Follows-performs :
    (run_id : Uuid) (st : RunStatus) (call : Call) (s : InMemoryRuntime)
    → OnNew (λ new. new ≢ run_id) call
    → OnRuns (Follows run_id st) s
    → OnRuns (Follows run_id st) (perform call s)
Follows-performs run_id st call s f h =
    perform_keeps (OnRuns (Follows run_id st)) (λ j. j ≢ run_id)
      (OnRuns-IsPassive (Follows run_id st)) (Follows-worker run_id st) (Follows-intake run_id st)
      (Follows-create run_id st) call s f h

pub found_after :
    (st : RunStatus) (o : Option RunStatus)
    → FollowsFrom st o
    → (st' : RunStatus) × (o ≡ some st') × (st ⟶* st')
found_after st none f = absurd f
found_after st (some st') f = (st', refl, f)

-- Whatever the API and the workers call, in whatever order and whether the calls raise: a stored
-- run stays stored, and it has moved by steps of the life cycle alone, provided that no call
-- generates its UUID again.
pub history_follows_life_cycle :
    (calls : List Call) (s : InMemoryRuntime) (run_id : Uuid) (st : RunStatus)
    → Dict.get s.internal_run_storage run_id ≡ some st
    → All (OnNew (λ new. new ≢ run_id)) calls
    → (st' : RunStatus) × (Dict.get (perform_all calls s).internal_run_storage run_id ≡ some st')
      × (st ⟶* st')
history_follows_life_cycle calls s run_id st g new = found_after st _ (
    perform_all_keeps (OnRuns (Follows run_id st)) (λ j. j ≢ run_id)
      (OnRuns-IsPassive (Follows run_id st)) (Follows-worker run_id st) (Follows-intake run_id st)
      (Follows-create run_id st) calls s new (rw g here))

-- A stored run in a terminal status keeps its whole record through every history of calls that
-- does not generate its UUID again.
pub terminal_for_ever :
    (calls : List Call) (s : InMemoryRuntime) (run_id : Uuid) (st : RunStatus)
    → Dict.get s.internal_run_storage run_id ≡ some st
    → IsTerminal st
    → All (OnNew (λ new. new ≢ run_id)) calls
    → Dict.get (perform_all calls s).internal_run_storage run_id ≡ some st
terminal_for_ever calls s run_id st g terminal new =
    let (st', found, steps) = history_follows_life_cycle calls s run_id st g new in
    found ∙ ap some (⟶*-terminal steps terminal)

-- An enqueued run that was asked to be cancelled never starts: after every history of calls that
-- does not generate its UUID again, it is stored with the record that it had, or it is CANCELLED.
pub asked_never_starts :
    (calls : List Call) (s : InMemoryRuntime) (run_id : Uuid) (st : RunStatus)
    → Dict.get s.internal_run_storage run_id ≡ some st
    → st.status ≡ enqueued
    → st.cancel_requested ≡ true
    → All (OnNew (λ new. new ≢ run_id)) calls
    → (st' : RunStatus) × (Dict.get (perform_all calls s).internal_run_storage run_id ≡ some st')
      × ((st' ≡ st) ⊎ (st'.status ≡ cancelled))
asked_never_starts calls s run_id st g is_enqueued asked new =
    let (st', found, steps) = history_follows_life_cycle calls s run_id st g new in
    (st', found, ⟶*-asked steps is_enqueued asked)
