-- ===== src/Orchestrator/AnyStore.antt =====
-- The service over any store and queue that keep their contracts.
use python_agent_with_idp.Prelude.{◌≡◌, ◌⊎◌, refl, Bool-cases, true, false, Option, some, inl, inr}
use python_agent_with_idp.Run.Status.{Uuid, RunStatus}
use python_agent_with_idp.Exec.{returned, ◌>>=◌}
use python_agent_with_idp.Services.{RunIntakeStore, RunSignalQueue}
use python_agent_with_idp.Services.Contract.{
  IntakeContract, QueueContract, Stores, asked, settled_already,
}
use python_agent_with_idp.Orchestrator.{request_cancel}

module _ {S : Type 0} (IsValid : S → Type 0) (find : S → Uuid → Option RunStatus)
    (Signalled : S → Type 0) (store : RunIntakeStore S) (queue : RunSignalQueue S)
    (intake : IntakeContract IsValid find store)
    (signals : QueueContract IsValid find Signalled queue) where
  -- With any store and queue that keep their contracts, in a valid state, the service's request
  -- to cancel a known run replies false and changes nothing if the run is terminal or was asked
  -- before. Otherwise it replies true, the request is noted on this run alone, the state stays
  -- valid, and the workers are signalled.
  pub request_cancel_by_contract :
      (run_id : Uuid) (s : S) (st : RunStatus)
      → IsValid s
      → find s run_id ≡ some st
      → ((settled_already st ≡ true) × (request_cancel store queue run_id s ≡ (returned false, s)))
        ⊎ ((settled_already st ≡ false)
            × Stores IsValid find (request_cancel store queue run_id) s true run_id (asked st)
            × Signalled (request_cancel store queue run_id s).1)
  unfolding request_cancel ◌>>=◌
  request_cancel_by_contract run_id s st valid g = elim (Bool-cases (settled_already st)) [
    | inl settled ↦ inl (settled, rw (intake.asked_already run_id s st valid g settled) refl)
    | inr live ↦
        let h = intake.asks run_id s st valid g live in
        let s' = (store.request_cancellation run_id s).1 in
        inr (
          live,
          record {
            replies = rw (h.replies, signals.returns s') refl;
            stores = rw (h.replies, signals.returns s', signals.keeps_runs run_id s') h.stores;
            others = λ other apart.
                rw (h.replies, signals.returns s', signals.keeps_runs other s')
                  (h.others other apart);
            valid = rw (h.replies, signals.returns s') (signals.keeps_valid s' h.valid);
          },
          rw (h.replies, signals.returns s') (signals.wakes s'),
        )
  ]
