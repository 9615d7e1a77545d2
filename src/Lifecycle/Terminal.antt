-- ===== src/Lifecycle/Terminal.antt =====
-- The steps of a run from a terminal status.
use python_agent_with_idp.Prelude.{◌≡◌, refl, true, arith}
use python_agent_with_idp.Run.Code.{terminal_run_statuses, member}
use python_agent_with_idp.Run.Status.{RunStatus}
use python_agent_with_idp.Policy.Allowed.{terminal_iff_no_arrow}
use python_agent_with_idp.Lifecycle.{
  WorkerStep, claim, renew, time_out, retry, requeue, succeed, fail, cancel, IntakeStep, enqueue,
  drop, ask, ◌⟶◌, by_worker, by_intake, ◌⟶*◌, here, next,
}

abbrev pub IsTerminal : RunStatus → Type 0
IsTerminal st = member st.status terminal_run_statuses ≡ true

no_worker_step : {st st' : RunStatus} → WorkerStep st st' → ¬ IsTerminal st
unfolding member
no_worker_step (cancel a e) t = (terminal_iff_no_arrow _).0 t _ a
no_worker_step (claim w u p c e) t = ground arith
no_worker_step (renew w u p o e) t = ground arith
no_worker_step (time_out w p e) t = ground arith
no_worker_step (retry w n p c e) t = ground arith
no_worker_step (requeue w p e) t = ground arith
no_worker_step (succeed r p e) t = ground arith
no_worker_step (fail m p e) t = ground arith

no_intake_step : {st st' : RunStatus} → IntakeStep st st' → ¬ IsTerminal st
no_intake_step (enqueue a e) t = (terminal_iff_no_arrow _).0 t _ a
no_intake_step (drop a e) t = (terminal_iff_no_arrow _).0 t _ a
no_intake_step (ask n c e) t = cc

pub no_step : {st st' : RunStatus} → st ⟶ st' → ¬ IsTerminal st
no_step (by_worker w) t = no_worker_step w t
no_step (by_intake i) t = no_intake_step i t

-- A run in a terminal status takes no step: whatever it takes, it stays as it is.
pub ⟶*-terminal : {st st' : RunStatus} → st ⟶* st' → IsTerminal st → st' ≡ st
⟶*-terminal here t = refl
⟶*-terminal (next {u = u} r step) t = let e = ⟶*-terminal r t in absurd (no_step step (rw e t))
