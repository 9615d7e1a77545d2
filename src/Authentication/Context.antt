-- ===== src/Authentication/Context.antt =====
-- llm_agent/llm_agent/infrastructure/execution_context: the enrichers of a request's context.
use python_agent_with_idp.Prelude.{String, str_eq, if◌then◌else◌, Option, none, some}
use python_agent_with_idp.Texts.{last_characters}
use python_agent_with_idp.Json.{str, num, end, field}
use python_agent_with_idp.Json.Values.{store}
use python_agent_with_idp.Run.Status.{Uuid}
use python_agent_with_idp.Error.{str_uuid, missing_key}
use python_agent_with_idp.Exec.{
  Outcome, returned, raised, Exec, Done, return, lift, gets, modify, ◌>>=◌, ◌>>◌, finally,
}
use python_agent_with_idp.Authentication.{Libraries}
use python_agent_with_idp.Authentication.Manager.{has_token}
use python_agent_with_idp.Authentication.Extractors.{
  Message, http_extract_safe, websocket_extract_safe,
}
use python_agent_with_idp.Authentication.Connection.{
  ScopeState, Scope, Connection, Receive, Send, or_empty_state,
}

-- str(uuid.uuid4())[-6:], for the UUID that is generated
unfoldable pub generate_request_id : Uuid → String
unfolding str_uuid last_characters
generate_request_id uuid = last_characters 6 (str_uuid uuid)

unfoldable pub set_default_state : Connection → Connection
unfolding or_empty_state
set_default_state c = record c {
  scope = record c.scope { state = some (or_empty_state c.scope.state) };
}

-- The writes in front of `yield`.
unfoldable pub bind_context : String → String → Option String → Connection → Connection
unfolding or_empty_state store
bind_context request_id scope_type jwt_token c = record c {
  context = record {
    jwt_token = jwt_token;
    log_context =
        store "scope_type" (str scope_type)
          (store "request_id" (str request_id) c.context.log_context);
  };
  scope = record c.scope {
    state = some (record (or_empty_state c.scope.state) {
      request_id = some request_id;
      jwt_token = jwt_token;
    });
  };
}

-- The `finally` clause.
unfoldable pub clear_context : Connection → Connection
clear_context c = record c { context = record { jwt_token = none; log_context = end } }

-- An enricher: `enrich_from_scope` around the body of a `with` statement, and the two wrappers.
pub record ExecutionContextEnricher : Type 0 where
  pub enrich_from_scope : Uuid → Exec Connection Done → Exec Connection Done
  pub get_instrumented_send : Send → Send
  pub get_instrumented_receive : Receive → Receive

-- The try statement of `enrich_from_scope` around the body.
unfoldable pub with_context : Uuid → Option String → Exec Connection Done → Exec Connection Done
unfolding generate_request_id bind_context clear_context
with_context uuid jwt_token body =
    finally
      (do
        scope_type ← gets (λ c. c.scope.scope_type)
        modify (bind_context (generate_request_id uuid) scope_type jwt_token)
        body)
      clear_context

-- scope["state"]["jwt_token"] = token, where the state is there
unfoldable pub write_token : String → Option ScopeState → Outcome ScopeState
write_token token none = raised (missing_key "state")
write_token token (some state) = returned (record state { jwt_token = some token })

module _ (libs : Libraries) where
  -- The token of the scope: of an HTTP request alone.
  unfoldable pub token_of_scope : Scope → Outcome (Option String)
  unfolding http_extract_safe
  token_of_scope scope =
      if str_eq scope.scope_type "http" then http_extract_safe libs scope.headers else returned none

  unfoldable pub production_enrich_from_scope : Uuid → Exec Connection Done → Exec Connection Done
  unfolding set_default_state token_of_scope with_context
  production_enrich_from_scope uuid body = do
    modify set_default_state
    scope ← gets (λ c. c.scope)
    jwt_token ← lift (token_of_scope scope)
    with_context uuid jwt_token body

  -- The writes of `instrumented_receive` for a token. The context variable is written first.
  unfoldable pub keep_token : Message → Option String → Exec Connection Message
  unfolding write_token
  keep_token message none = return message
  keep_token message (some token) =
      if has_token (some token)
      then (do
        modify (λ c. record c { context = record c.context { jwt_token = some token } })
        state ← gets (λ c. c.scope.state)
        written ← lift (write_token token state)
        modify (λ c. record c { scope = record c.scope { state = some written } })
        return message)
      else return message

  unfoldable pub instrumented_receive : Receive → Receive
  unfolding websocket_extract_safe keep_token
  instrumented_receive receive = do
    message ← receive
    jwt_token ← lift (websocket_extract_safe libs message)
    keep_token message jwt_token

  unfoldable pub production_enricher : ExecutionContextEnricher
  unfolding production_enrich_from_scope instrumented_receive
  production_enricher = record {
    enrich_from_scope = production_enrich_from_scope;
    get_instrumented_send = λ send. send;
    get_instrumented_receive = instrumented_receive;
  }

  -- generate_fake_jwt_token
  unfoldable pub generate_fake_jwt_token : String
  generate_fake_jwt_token =
      libs.encode
        (field "sub" (str "1234567890")
          (field "name" (str "John Doe") (field "iat" (num 1516239022) end)))
        "secret" (field "alg" (str "HS256") end)

  unfoldable pub fake_enrich_from_scope : Uuid → Exec Connection Done → Exec Connection Done
  unfolding set_default_state generate_fake_jwt_token with_context
  fake_enrich_from_scope uuid body = do
    modify set_default_state
    scope ← gets (λ c. c.scope)
    let jwt_token = if str_eq scope.scope_type "http" then some generate_fake_jwt_token else none
    with_context uuid jwt_token body

  unfoldable pub fake_enricher : ExecutionContextEnricher
  unfolding fake_enrich_from_scope
  fake_enricher = record {
    enrich_from_scope = fake_enrich_from_scope;
    get_instrumented_send = λ send. send;
    get_instrumented_receive = λ receive. receive;
  }
