-- ===== src/Authentication/Connection.antt =====
-- What a request is for the middlewares: its ASGI scope, the context variables of its task, and the
-- validation client that all requests share. llm_agent/llm_agent/api/context.
use python_agent_with_idp.Prelude.{ℕ, String, Option, none, some}
use python_agent_with_idp.Json.{Json, Fields}
use python_agent_with_idp.Exec.{Exec, Done}
use python_agent_with_idp.Authentication.{Headers}
use python_agent_with_idp.Authentication.Extractors.{Message}
use python_agent_with_idp.Authentication.Validator.{JwtValidationClient}

-- scope["state"], with the three keys that the code reads or writes; a key that is missing reads as
-- None, since the code reads them by `get`.
pub record ScopeState : Type 0 where
  pub request_id : Option String
  pub jwt_token : Option String
  pub user_id : Option Json

abbrev pub empty_state : ScopeState
empty_state = record { request_id = none; jwt_token = none; user_id = none }

pub record Scope : Type 0 where
  pub scope_type : String
  pub path : Option String
  pub headers : Headers
  pub state : Option ScopeState

-- RequestContextVars.JWT_TOKEN, and the context of structlog
pub record RequestContext : Type 0 where
  pub jwt_token : Option String
  pub log_context : Fields

pub record Connection : Type 0 where
  pub scope : Scope
  pub context : RequestContext
  pub client : JwtValidationClient

pub record Response : Type 0 where
  pub status_code : ℕ
  pub content : Fields

abbrev pub Receive : Type 0
Receive = Exec Connection Message

-- What is sent of interest: a whole response.
abbrev pub Send : Type 0
Send = Response → Exec Connection Done

-- An ASGI application; the scope is part of the connection.
abbrev pub App : Type 0
App = Receive → Send → Exec Connection Done

-- scope.setdefault("state", {})
unfoldable pub or_empty_state : Option ScopeState → ScopeState
or_empty_state none = empty_state
or_empty_state (some state) = state

-- An action of the validation client.
unfoldable pub on_client : {A : Type 0} → Exec JwtValidationClient A → Exec Connection A
on_client m c = let (r, client) = m c.client in (r, record c { client = client })
