-- ===== src/Authentication.antt =====
-- Who may call the API: llm_agent/llm_agent/infrastructure/authentication,
-- llm_agent/llm_agent/infrastructure/execution_context, the middlewares of
-- llm_agent/llm_agent/api/http/middlewares, and what they use of the domain and application layers.
--
-- What httpx, authlib, FastAPI and starlette do, and `json.loads`, are the fields of Libraries, so that the
-- definitions are for any behaviour of them.
pub mod Claims
pub mod Keys
pub mod Validator
pub mod Manager
pub mod Extractors
pub mod Connection
pub mod Context
pub mod Middlewares
pub mod Identified
pub mod Tokens
pub mod Entered
pub mod Answers
pub mod Cleared
use python_agent_with_idp.Prelude.{ℕ, String, Option, List}
use python_agent_with_idp.Json.{Json, Fields}
use python_agent_with_idp.Exec.{Outcome, Done}

-- claims_options: the value that "iss" must have; that it and "exp" are essential is fixed.
pub record ClaimsOptions : Type 0 where
  pub issuer : Json

-- load_key(header, payload)
abbrev pub KeyLoader : Type 0
KeyLoader = Fields → Fields → Outcome Json

abbrev pub Headers : Type 0
Headers = List (String × String)

pub record Libraries : Type 1 where
  -- httpx. A response may depend on the addresses that have been requested before.
  pub HttpResponse : Type 0
  pub http_get : List String → String → Outcome HttpResponse
  pub raise_for_status : HttpResponse → Outcome Done
  pub response_json : HttpResponse → Outcome Json
  -- authlib. The claims that `decode` gives know their options; validating them reads the clock.
  pub get_well_known_url : String → String
  pub JwtClaims : Type 0
  pub decode : String → KeyLoader → ClaimsOptions → Outcome JwtClaims
  pub validate_claims : ℕ → JwtClaims → Outcome Done
  pub claims_dict : JwtClaims → Fields
  pub encode : Fields → String → Fields → String
  -- fastapi.security.utils, of an optional header value: `null` is None
  pub get_authorization_scheme_param : Json → Outcome (String × String)
  -- starlette.datastructures.Headers(scope=scope).get(name)
  pub header : Headers → String → Option String
  -- json.loads, none where it raises JSONDecodeError
  pub json_loads : String → Option Json
