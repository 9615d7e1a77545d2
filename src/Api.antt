-- ===== src/Api.antt =====
-- llm_agent/llm_agent/api/http/v1: the run routes of routes/agent.py, the data transfer objects
-- of dto/ and the mappers of mappers/ that they use. A route that FastAPI calls with a parsed
-- request is a function of the shared runtime; FastAPI's own parsing and serialisation are not
-- modelled.
pub mod Answers
use python_agent_with_idp.Prelude.{
  ℕ, String, Bool, true, false, Option, List, [], ◌∷◌, map, if◌then◌else◌,
}
use python_agent_with_idp.Json.{Fields}
use python_agent_with_idp.Run.Code.{name}
use python_agent_with_idp.Run.Status.{Uuid, Timestamp, RunStatus, RunEvent}
use python_agent_with_idp.Error.{Exception, run_not_found, is_value_error, str_exception}
use python_agent_with_idp.Exec.{Outcome, returned, raised, Exec, return, ◌>>=◌, ◌>>◌}
use python_agent_with_idp.Policy.{RunTransitionPolicy}
use python_agent_with_idp.Runtime.{InMemoryRuntime}
use python_agent_with_idp.Orchestrator

pub record CreatedRunDto : Type 0 where
  pub id : Uuid

pub record RunDto : Type 0 where
  pub id : Uuid
  pub status : String
  pub result : Option Fields
  pub error : Option String
  pub cancel_requested : Bool

pub record RunEventDto : Type 0 where
  pub sequence_nr : ℕ
  pub event_type : String
  pub payload : Fields
  pub timestamp_utc : Timestamp

pub record CancelRunResponseDto : Type 0 where
  pub run_id : Uuid
  pub status : String
  pub message : String

-- CreatedRunV1Mapper.to_dto
unfoldable pub created_run_to_dto : RunStatus → CreatedRunDto
created_run_to_dto run_status = record { id = run_status.id }

-- RunV1Mapper.to_dto
unfoldable pub run_to_dto : RunStatus → RunDto
run_to_dto run_status = record {
  id = run_status.id;
  status = name run_status.status;
  result = run_status.result;
  error = run_status.error;
  cancel_requested = run_status.cancel_requested;
}

-- RunEventV1Mapper.to_dto
unfoldable pub run_event_to_dto : RunEvent → RunEventDto
run_event_to_dto run_event = record {
  sequence_nr = run_event.sequence_nr;
  event_type = run_event.event_type;
  payload = run_event.payload;
  timestamp_utc = run_event.timestamp_utc;
}

-- What a route ends with: its result, an HTTPException, or another exception, which the server
-- answers with the status 500.
pub data Answer (A : Type 0) : Type 0 where
  answered : A → Answer A
  http_exception : ℕ → String → Answer A
  unhandled : Exception → Answer A

-- except RunNotFoundError as exc: raise HTTPException(404, str(exc))
unfoldable pub or_404 : {A : Type 0} → Outcome A → Answer A
or_404 (returned a) = answered a
or_404 (raised (run_not_found run_id)) = http_exception 404 (str_exception (run_not_found run_id))
or_404 (raised exc) = unhandled exc

-- The same, and then: except ValueError as exc: raise HTTPException(400, str(exc))
unfoldable pub or_404_or_400 : {A : Type 0} → Outcome A → Answer A
or_404_or_400 (returned a) = answered a
or_404_or_400 (raised (run_not_found run_id)) =
    http_exception 404 (str_exception (run_not_found run_id))
or_404_or_400 (raised exc) =
    if is_value_error exc then http_exception 400 (str_exception exc) else unhandled exc

-- No `try` at all.
unfoldable pub or_500 : {A : Type 0} → Outcome A → Answer A
or_500 (returned a) = answered a
or_500 (raised exc) = unhandled exc

abbrev answer :
    {A : Type 0}
    → (Outcome A → Answer A)
    → Exec InMemoryRuntime A
    → InMemoryRuntime
    → Answer A × InMemoryRuntime
answer handled m s = let (r, s') = m s in (handled r, s')

-- `run_id` is the UUID that the store generates.
unfoldable pub create_agent_run :
    RunTransitionPolicy → Uuid → String → InMemoryRuntime → Answer CreatedRunDto × InMemoryRuntime
unfolding created_run_to_dto
create_agent_run policy run_id prompt = answer or_500 (do
  created_run_status ← Orchestrator.create_run policy run_id prompt
  return (created_run_to_dto created_run_status))

unfoldable pub get_agent_run : Uuid → InMemoryRuntime → Answer RunDto × InMemoryRuntime
unfolding run_to_dto
get_agent_run run_id =
    answer or_404 (do run_status ← Orchestrator.get_run run_id; return (run_to_dto run_status))

-- The response to a cancellation.
unfoldable pub cancel_response : Uuid → Bool → CancelRunResponseDto
cancel_response run_id was_cancelled =
    if was_cancelled
    then record {
      run_id = run_id;
      status = "cancel_requested";
      message = "Run cancellation requested";
    }
    else record {
      run_id = run_id;
      status = "already_terminal";
      message = "Run already in terminal state or cancel is requested";
    }

unfoldable pub cancel_agent_run :
    Uuid → InMemoryRuntime → Answer CancelRunResponseDto × InMemoryRuntime
unfolding cancel_response
cancel_agent_run run_id = answer or_404 (do
  was_cancelled ← Orchestrator.cancel_run run_id
  return (cancel_response run_id was_cancelled))

-- `after` is a number that the caller has seen, or none. (A negative one selects what 0 selects.)
unfoldable pub get_agent_run_events :
    Uuid → Option ℕ → InMemoryRuntime → Answer (List RunEventDto) × InMemoryRuntime
unfolding run_event_to_dto
get_agent_run_events run_id after = answer or_404_or_400 (do
  Orchestrator.get_run run_id
  events ← Orchestrator.get_events run_id after
  return (map run_event_to_dto events))
