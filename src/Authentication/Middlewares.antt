-- ===== src/Authentication/Middlewares.antt =====
-- llm_agent/llm_agent/api/http/middlewares, and their order in llm_agent/llm_agent/app.py.
use text.Mathlib.Text.{starts_with}
use python_agent_with_idp.Prelude.{ℕ, String, str_eq, Bool, ◌||◌, if◌then◌else◌, Option, none, some}
use python_agent_with_idp.Json.{Json, str, end, field}
use python_agent_with_idp.Json.Values.{store}
use python_agent_with_idp.Run.Status.{Uuid}
use python_agent_with_idp.Error.{Exception, missing_key, authentication_error}
use python_agent_with_idp.Exec.{Outcome, returned, raised, Exec, Done, lift, gets, modify, ◌>>=◌}
use python_agent_with_idp.Authentication.{Libraries}
use python_agent_with_idp.Authentication.Manager.{OpenIdConfiguration, authenticate_jwt_token}
use python_agent_with_idp.Authentication.Connection.{
  ScopeState, Connection, Response, App, Receive, Send, or_empty_state, on_client,
}
use python_agent_with_idp.Authentication.Context.{ExecutionContextEnricher}

-- scope["type"] in ("http", "websocket")
unfoldable pub is_request : String → Bool
is_request scope_type = str_eq scope_type "http" || str_eq scope_type "websocket"

-- str(raw_path).startswith(("/health",))
unfoldable pub is_excluded : Option String → Bool
is_excluded none = starts_with "None" "/health"
is_excluded (some raw_path) = starts_with raw_path "/health"

-- JSONResponse(status_code=..., content={"detail": ...})
abbrev pub detail_response : ℕ → String → Response
detail_response status_code detail = record {
  status_code = status_code;
  content = field "detail" (str detail) end;
}

-- scope["state"].get("jwt_token")
unfoldable pub extracted_token : Option ScopeState → Outcome (Option String)
extracted_token none = raised (missing_key "state")
extracted_token (some state) = returned state.jwt_token

-- bind_contextvars(user_id=...) and scope["state"]["user_id"] = ...
unfoldable pub bind_user : Json → Connection → Connection
unfolding store or_empty_state
bind_user user_id c = record c {
  context = record c.context { log_context = store "user_id" user_id c.context.log_context };
  scope = record c.scope {
    state = some (record (or_empty_state c.scope.state) { user_id = some user_id });
  };
}

-- The two `except` clauses.
unfoldable pub refusal : Exception → Response
refusal (authentication_error message) = detail_response 401 "Authentication failed"
refusal exc = detail_response 500 "Unexpected error during authentication"

module _ (libs : Libraries) (config : OpenIdConfiguration) (now : ℕ) where
  -- The body of the try statement.
  unfoldable pub identify : Exec Connection Done
  unfolding extracted_token bind_user on_client authenticate_jwt_token
  identify = do
    state ← gets (λ c. c.scope.state)
    token ← lift (extracted_token state)
    user_identity ← on_client (authenticate_jwt_token libs config now token)
    modify (bind_user user_identity.user_id)

  -- After the try statement: the application, or the response of the `except` clause.
  unfoldable pub answer_identified : App → Receive → Send → Outcome Done → Exec Connection Done
  unfolding refusal
  answer_identified app receive send (returned done) = app receive send
  answer_identified app receive send (raised exc) = send (refusal exc)

  unfoldable pub authenticate_request : App → App
  unfolding identify answer_identified
  authenticate_request app receive send c =
      let (identified, c') = identify c in answer_identified app receive send identified c'

  -- AuthenticationMiddleware.__call__
  unfoldable pub authentication_middleware : App → App
  unfolding is_request is_excluded authenticate_request
  authentication_middleware app receive send c =
      if is_request c.scope.scope_type
      then if is_excluded c.scope.path
        then app receive send c
        else authenticate_request app receive send c
      else app receive send c

-- ExecutionContextMiddleware.__call__
unfoldable pub execution_context_middleware : ExecutionContextEnricher → Uuid → App → App
unfolding is_request
execution_context_middleware enricher uuid app receive send c =
    if is_request c.scope.scope_type
    then enricher.enrich_from_scope uuid
        (app (enricher.get_instrumented_receive receive) (enricher.get_instrumented_send send)) c
    else app receive send c

-- register_middlewares: the middleware that is added last stands outermost.
unfoldable pub register_middlewares :
    Libraries → OpenIdConfiguration → ℕ → ExecutionContextEnricher → Uuid → App → App
unfolding authentication_middleware execution_context_middleware
register_middlewares libs config now enricher uuid app =
    execution_context_middleware enricher uuid (authentication_middleware libs config now app)
