-- ===== src/Worker/Endings.antt =====
-- The last write of an execution, to a run that is running, and the read before it.
use python_agent_with_idp.Prelude.{◌≡◌, String, some}
use python_agent_with_idp.Dict
use python_agent_with_idp.Dict.{Dict}
use python_agent_with_idp.Dict.Laws.{contains_of_get}
use python_agent_with_idp.Run.Code.{running, succeeded, failed, cancelled}
use python_agent_with_idp.Run.Status.{Uuid, RunStatus}
use python_agent_with_idp.Exec.{Outcome, returned, Done, ◌>>=◌}
use python_agent_with_idp.Policy.{default_policy}
use python_agent_with_idp.Runtime.{InMemoryRuntime, run_at_there}
use python_agent_with_idp.Calls.Sound.{IsSound}
use python_agent_with_idp.Processing
use python_agent_with_idp.Claiming.Completion.{
  set_cancelled_returns, set_succeeded_returns, set_failed_returns, Inside-self, listed_self,
}
use python_agent_with_idp.Worker.Consumer.{ok}

-- Returned without a result, leaving the run stored as `st`.
abbrev pub Ends : Uuid → RunStatus → Outcome Done × InMemoryRuntime → Type 0
Ends run_id st (r, s) = (r ≡ returned tt) × (Dict.get s.internal_run_storage run_id ≡ some st)

pub get_status_there :
    (s : InMemoryRuntime) (run_id : Uuid) (st : RunStatus)
    → Dict.get s.internal_run_storage run_id ≡ some st
    → Processing.get_status run_id s ≡ (returned st, s)
unfolding Processing.get_status ◌>>=◌
get_status_there s run_id st g =
    rw (contains_of_get s.internal_run_storage run_id g) (run_at_there run_id s g)

module _ (s : InMemoryRuntime) (run_id : Uuid) (st : RunStatus) (sound : IsSound s)
    (g : Dict.get s.internal_run_storage run_id ≡ some st) (is_running : st.status ≡ running) where
  pub set_cancelled-Ends :
      Ends run_id
        (record st { status = cancelled })
        (Processing.set_cancelled default_policy run_id s)
  set_cancelled-Ends =
      let (done, e, h) =
        (set_cancelled_returns run_id st (listed_self _ run_id st g) is_running).run s
          (Inside-self s run_id st sound g) in
      (e, h.facts)

  pub set_succeeded-Ends :
      Ends run_id
        (record st { status = succeeded; result = some ok })
        (Processing.set_succeeded default_policy run_id ok s)
  set_succeeded-Ends =
      let (done, e, h) =
        (set_succeeded_returns run_id st (listed_self _ run_id st g) is_running ok).run s
          (Inside-self s run_id st sound g) in
      (e, h.facts)

  pub set_failed-Ends :
      (error : String)
      → Ends run_id
          (record st { status = failed; error = some error })
          (Processing.set_failed default_policy run_id error s)
  set_failed-Ends error =
      let (done, e, h) =
        (set_failed_returns run_id st (listed_self _ run_id st g) is_running error).run s
          (Inside-self s run_id st sound g) in
      (e, h.facts)
