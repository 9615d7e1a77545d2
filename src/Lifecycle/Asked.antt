-- ===== src/Lifecycle/Asked.antt =====
-- The steps of an enqueued run that was asked to be cancelled.
use python_agent_with_idp.Prelude.{◌≡◌, ◌⊎◌, inl, inr, refl, ap, true}
use python_agent_with_idp.Run.Code.{RunStatusCode, enqueued, cancelled, member}
use python_agent_with_idp.Run.Status.{RunStatus}
use python_agent_with_idp.Policy.Allowed.{Allowed}
use python_agent_with_idp.Lifecycle.{
  WorkerStep, claim, renew, time_out, retry, requeue, succeed, fail, cancel, IntakeStep, enqueue,
  drop, ask, ◌⟶◌, by_worker, by_intake, ◌⟶*◌, here, next,
}
use python_agent_with_idp.Lifecycle.Terminal.{IsTerminal, no_step}

worker_step_cancels :
    {st st' : RunStatus}
    → WorkerStep st st'
    → st.status ≡ enqueued
    → st.cancel_requested ≡ true
    → st'.status ≡ cancelled
worker_step_cancels (cancel a e) p asked = ap (λ (r : RunStatus). r.status) e
worker_step_cancels (claim w u q c e) p asked = cc
worker_step_cancels (renew w u q o e) p asked = cc
worker_step_cancels (time_out w q e) p asked = cc
worker_step_cancels (retry w n q c e) p asked = cc
worker_step_cancels (requeue w q e) p asked = cc
worker_step_cancels (succeed r q e) p asked = cc
worker_step_cancels (fail m q e) p asked = cc

no_second_enqueue : {from : RunStatusCode} → Allowed from enqueued → ¬ (from ≡ enqueued)
no_second_enqueue Allowed.enqueue p = cc
no_second_enqueue Allowed.requeue p = cc

intake_step_cancels :
    {st st' : RunStatus}
    → IntakeStep st st'
    → st.status ≡ enqueued
    → st.cancel_requested ≡ true
    → st'.status ≡ cancelled
intake_step_cancels (enqueue a e) p asked = absurd (no_second_enqueue a p)
intake_step_cancels (drop a e) p asked = ap (λ (r : RunStatus). r.status) e
intake_step_cancels (ask n c e) p asked = cc

step_cancels :
    {st st' : RunStatus}
    → st ⟶ st'
    → st.status ≡ enqueued
    → st.cancel_requested ≡ true
    → st'.status ≡ cancelled
step_cancels (by_worker w) p asked = worker_step_cancels w p asked
step_cancels (by_intake i) p asked = intake_step_cancels i p asked

cancelled-IsTerminal : (st : RunStatus) → st.status ≡ cancelled → IsTerminal st
unfolding member
cancelled-IsTerminal st p = rw p refl

-- It stays as it is, or it is cancelled.
pub ⟶*-asked :
    {st st' : RunStatus}
    → st ⟶* st'
    → st.status ≡ enqueued
    → st.cancel_requested ≡ true
    → (st' ≡ st) ⊎ (st'.status ≡ cancelled)
⟶*-asked here p asked = inl refl
⟶*-asked (next {u = u} r step) p asked = elim (⟶*-asked r p asked) [
  | inl same ↦ inr (step_cancels step (rw same p) (rw same asked))
  | inr over ↦ absurd (no_step step (cancelled-IsTerminal u over))
]
