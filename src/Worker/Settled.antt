-- ===== src/Worker/Settled.antt =====
-- What `execute_run` makes of a run, once the executor has ended.
use python_agent_with_idp.Prelude.{
  ◌≡◌, ◌∙◌, refl, Bool, true, false, ◌||◌, Option, none, some, if◌then◌else◌, Bool-cases, inl, inr,
}
use python_agent_with_idp.Dict
use python_agent_with_idp.Dict.{Dict}
use python_agent_with_idp.Run.Code.{running, succeeded, failed, cancelled}
use python_agent_with_idp.Run.Status.{Uuid, RunStatus}
use python_agent_with_idp.Error.{Exception, attribute_error, str_exception, invalid_transition}
use python_agent_with_idp.Exec.{Outcome, returned, raised, Done, Exec, catch, finally, ◌>>=◌, ◌>>◌}
use python_agent_with_idp.Policy.{default_policy}
use python_agent_with_idp.Lifecycle.Terminal.{IsTerminal}
use python_agent_with_idp.Policy.Allowed.{terminal_iff_no_arrow}
use python_agent_with_idp.Calls.Sound.{IsSound}
use python_agent_with_idp.Claiming.Completion.{
  set_failed_refused, set_succeeded_refused, set_cancelled_refused,
}
use python_agent_with_idp.Worker.{Worker, RunExecutionContext, is_cancelled, on_runtime}
use python_agent_with_idp.Worker.Consumer.{
  ok, seen_cancelled, settle, record_failure, execute_run, forget_context,
}
use python_agent_with_idp.Worker.Endings.{
  Ends, get_status_there, set_cancelled-Ends, set_succeeded-Ends, set_failed-Ends,
}

-- What the consumer reads of the context: whether its event is set, or the error of a missing one.
abbrev pub event_of : Option RunExecutionContext → Outcome Bool
event_of none = raised (attribute_error "'NoneType' object has no attribute 'is_cancelled'")
event_of (some ctx) = returned ctx.cancellation_event

seen_cancelled_lem : (ctx : Option RunExecutionContext) → seen_cancelled ctx ≡ event_of ctx
unfolding seen_cancelled is_cancelled
seen_cancelled_lem none = refl
seen_cancelled_lem (some ctx) = refl

-- The record of a running run after its execution: by how the executor ended, and by whether its
-- context was cancelled.
abbrev pub settled : Outcome Done → Outcome Bool → RunStatus → RunStatus
settled (raised exc) is_cancelled st = record st {
  status = failed;
  error = some (str_exception exc);
}
settled (returned done) (raised exc) st = record st {
  status = failed;
  error = some (str_exception exc);
}
settled (returned done) (returned is_cancelled) st =
    if is_cancelled || st.cancel_requested
    then record st { status = cancelled }
    else record st { status = succeeded; result = some ok }

-- Returned in the worker, leaving the run stored as `st`.
abbrev pub WorkerEnds : Uuid → RunStatus → Outcome Done × Worker → Type 0
WorkerEnds run_id st (r, w) = Ends run_id st (r, w.runtime)

by_flag :
    (flag : Bool) (m n : Exec Worker Done) (w : Worker) (run_id : Uuid) (st st' : RunStatus)
    → WorkerEnds run_id st (m w)
    → WorkerEnds run_id st' (n w)
    → WorkerEnds run_id (if flag then st else st') ((if flag then m else n) w)
by_flag true m n w run_id st st' h h' = h
by_flag false m n w run_id st st' h h' = h'

settle_ends :
    (w : Worker) (run_id : Uuid) (st : RunStatus) (is_cancelled : Bool)
    → event_of w.current_run_execution_ctx ≡ returned is_cancelled
    → IsSound w.runtime
    → Dict.get w.runtime.internal_run_storage run_id ≡ some st
    → st.status ≡ running
    → WorkerEnds run_id
        (settled (returned tt) (returned is_cancelled) st)
        (settle default_policy run_id w)
unfolding settle on_runtime ◌>>=◌
settle_ends w run_id st is_cancelled seen sound g is_running =
    let read = seen_cancelled_lem w.current_run_execution_ctx ∙ seen in
    elim (Bool-cases is_cancelled) [
      | inl asked ↦ rw (read, asked) (set_cancelled-Ends w.runtime run_id st sound g is_running)
      | inr other ↦
          rw (read, other)
            (rw (get_status_there w.runtime run_id st g) (
              by_flag st.cancel_requested _ _ w run_id _ _
                (set_cancelled-Ends w.runtime run_id st sound g is_running)
                (set_succeeded-Ends w.runtime run_id st sound g is_running)))
    ]

-- Without a context they raise at once.
settle_lacks :
    (w : Worker) (run_id : Uuid) (exc : Exception)
    → event_of w.current_run_execution_ctx ≡ raised exc
    → settle default_policy run_id w ≡ (raised exc, w)
unfolding settle ◌>>=◌
settle_lacks w run_id exc seen = rw (seen_cancelled_lem w.current_run_execution_ctx ∙ seen) refl

-- The `try` statement, when its body has returned.
guarded_ends :
    (m : Exec Worker Done) (handler : Exception → Exec Worker Done) (w : Worker) (run_id : Uuid)
    (st : RunStatus)
    → WorkerEnds run_id st (m w)
    → WorkerEnds run_id st (finally (catch m handler) forget_context w)
unfolding catch finally
guarded_ends m handler w run_id st h = rw h.0 (refl, h.1)

-- When its body has raised.
guarded_fails :
    (m : Exec Worker Done) (handler : Exception → Exec Worker Done) (exc : Exception)
    (run_id : Uuid) (st : RunStatus) (w w₁ : Worker)
    → m w ≡ (raised exc, w₁)
    → WorkerEnds run_id st (handler exc w₁)
    → WorkerEnds run_id st (finally (catch m handler) forget_context w)
unfolding catch finally
guarded_fails m handler exc run_id st w w₁ e h = rw e h

settled_by :
    (execute : Exec Worker Done) (w w₁ : Worker) (r : Outcome Done) (run_id : Uuid) (st : RunStatus)
    → execute w ≡ (r, w₁)
    → IsSound w₁.runtime
    → Dict.get w₁.runtime.internal_run_storage run_id ≡ some st
    → st.status ≡ running
    → (seen : Outcome Bool) → event_of w₁.current_run_execution_ctx ≡ seen
    → WorkerEnds run_id (settled r seen st) (execute_run default_policy execute run_id w)
unfolding execute_run ◌>>=◌ record_failure on_runtime
settled_by execute w w₁ (raised exc) run_id st e sound g is_running seen h =
    guarded_fails _ _ exc run_id _ w w₁ (rw e refl)
      (set_failed-Ends w₁.runtime run_id st sound g is_running (str_exception exc))
settled_by execute w w₁ (returned done) run_id st e sound g is_running (raised exc) h =
    guarded_fails _ _ exc run_id _ w w₁ (rw e (settle_lacks w₁ run_id exc h))
      (set_failed-Ends w₁.runtime run_id st sound g is_running (str_exception exc))
settled_by execute w w₁ (returned done) run_id st e sound g is_running (returned is_cancelled) h =
    guarded_ends _ _ w run_id _ (rw e (settle_ends w₁ run_id st is_cancelled h sound g is_running))

-- When the executor has ended in a sound state and the run is still running, then `execute_run`
-- returns, and it leaves the run FAILED with the text of the executor's exception or, where there
-- is no context any more, with that of the AttributeError, or else CANCELLED if the context is
-- cancelled or the run was asked to be cancelled, or else SUCCEEDED with the result {"ok": True}.
pub execute_run-settled :
    (execute : Exec Worker Done) (w w₁ : Worker) (r : Outcome Done) (run_id : Uuid) (st : RunStatus)
    → execute w ≡ (r, w₁)
    → IsSound w₁.runtime
    → Dict.get w₁.runtime.internal_run_storage run_id ≡ some st
    → st.status ≡ running
    → WorkerEnds run_id
        (settled r (event_of w₁.current_run_execution_ctx) st)
        (execute_run default_policy execute run_id w)
execute_run-settled execute w w₁ r run_id st e sound g is_running =
    settled_by execute w w₁ r run_id st e sound g is_running _ refl

-- For a terminal run the statements after the executor raise, and write nothing.
settle_raises_by :
    (w : Worker) (run_id : Uuid) (st : RunStatus)
    → Dict.get w.runtime.internal_run_storage run_id ≡ some st
    → IsTerminal st
    → (seen : Outcome Bool) → event_of w.current_run_execution_ctx ≡ seen
    → (exc : Exception) × (settle default_policy run_id w ≡ (raised exc, w))
unfolding settle on_runtime ◌>>=◌
settle_raises_by w run_id st g terminal (raised exc) h = (exc, settle_lacks w run_id exc h)
settle_raises_by w run_id st g terminal (returned is_cancelled) h =
    let read = seen_cancelled_lem w.current_run_execution_ctx ∙ h in
    let no_arrow = (terminal_iff_no_arrow st.status).0 terminal in
    let refused = set_cancelled_refused w.runtime run_id st g (no_arrow cancelled) in
    elim (Bool-cases is_cancelled) [
      | inl asked ↦ (invalid_transition st.status cancelled, rw (read, asked, refused) refl)
      | inr other ↦ elim (Bool-cases st.cancel_requested) [
        | inl asked ↦ (
          invalid_transition st.status cancelled,
          rw (read, other, get_status_there w.runtime run_id st g, asked, refused) refl,
        )
        | inr wanted ↦ (
          invalid_transition st.status succeeded,
          rw
              (
                read,
                other,
                get_status_there w.runtime run_id st g,
                wanted,
                set_succeeded_refused w.runtime run_id st g ok (no_arrow succeeded),
              )
              refl,
        )
      ]
    ]

settle_raises :
    (w : Worker) (run_id : Uuid) (st : RunStatus)
    → Dict.get w.runtime.internal_run_storage run_id ≡ some st
    → IsTerminal st
    → (exc : Exception) × (settle default_policy run_id w ≡ (raised exc, w))
settle_raises w run_id st g terminal = settle_raises_by w run_id st g terminal _ refl

body_raises :
    (execute : Exec Worker Done) (w w₁ : Worker) (r : Outcome Done) (run_id : Uuid) (st : RunStatus)
    → execute w ≡ (r, w₁)
    → Dict.get w₁.runtime.internal_run_storage run_id ≡ some st
    → IsTerminal st
    → (exc : Exception) × ((execute >> settle default_policy run_id) w ≡ (raised exc, w₁))
unfolding ◌>>=◌
body_raises execute w w₁ (returned done) run_id st e g terminal =
    let (exc, raises) = settle_raises w₁ run_id st g terminal in (exc, rw e raises)
body_raises execute w w₁ (raised exc) run_id st e g terminal = (exc, rw e refl)

-- When a stored run is terminal at the end of its execution, `execute_run` raises whatever the
-- executor did: the handler of the failure fails itself. No run is written after the executor.
pub execute_run-terminal :
    (execute : Exec Worker Done) (w w₁ : Worker) (r : Outcome Done) (run_id : Uuid) (st : RunStatus)
    → execute w ≡ (r, w₁)
    → Dict.get w₁.runtime.internal_run_storage run_id ≡ some st
    → IsTerminal st
    → execute_run default_policy execute run_id w
      ≡ (raised (invalid_transition st.status failed), forget_context w₁)
unfolding execute_run catch finally record_failure on_runtime
execute_run-terminal execute w w₁ r run_id st e g terminal =
    let (exc, raises) = body_raises execute w w₁ r run_id st e g terminal in
    rw
      (
        raises,
        set_failed_refused w₁.runtime run_id st g (str_exception exc)
            ((terminal_iff_no_arrow st.status).0 terminal failed),
      )
      refl
