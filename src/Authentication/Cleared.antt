-- ===== src/Authentication/Cleared.antt =====
-- What a request leaves in the context variables.
use python_agent_with_idp.Prelude.{
  ℕ, String, str_eq, ◌≡◌, refl, ap, Bool-cases, inl, inr, true, Option, none, some,
}
use python_agent_with_idp.Texts.{is_empty, lower_is}
use python_agent_with_idp.Json.{str, end}
use python_agent_with_idp.Run.Status.{Uuid}
use python_agent_with_idp.Exec.{returned}
use python_agent_with_idp.Exec.Results.{◌>>=◌}
use python_agent_with_idp.Authentication.{Libraries}
use python_agent_with_idp.Authentication.Manager.{OpenIdConfiguration}
use python_agent_with_idp.Authentication.Extractors.{
  bearer_token, none_on_invalid_header, extract_header, extract, http_extract_safe,
}
use python_agent_with_idp.Authentication.Connection.{Scope, Connection, App, Receive, Send}
use python_agent_with_idp.Authentication.Context.{clear_context, token_of_scope}
use python_agent_with_idp.Authentication.Middlewares.{is_request}
use python_agent_with_idp.Authentication.Answers.{serve, serve-entered}

-- The parts of an Authorization header are there for every text.
abbrev pub PartsAllTexts : Libraries → Type 0
PartsAllTexts libs =
    (value : String)
    → (parts : String × String) × (libs.get_authorization_scheme_param (str value) ≡ returned parts)

bearer_token_safe :
    (parts : String × String)
    → (token : Option String) × (none_on_invalid_header (bearer_token parts) ≡ returned token)
unfolding bearer_token none_on_invalid_header
bearer_token_safe (scheme, token) = elim (Bool-cases (is_empty scheme)) [
  | inl empty ↦ (none, rw empty refl)
  | inr full ↦ elim (Bool-cases (lower_is scheme "bearer")) [
    | inl bearer ↦ (some token, rw (full, bearer) refl)
    | inr other ↦ (none, rw (full, other) refl)
  ]
]

module _ (libs : Libraries) (parts_all : PartsAllTexts libs) where
  extract_header_safe :
      (auth_header : Option String)
      → (token : Option String) × (none_on_invalid_header (extract_header libs auth_header)
          ≡ returned token)
  unfolding extract_header none_on_invalid_header ◌>>=◌
  extract_header_safe none = (none, refl)
  extract_header_safe (some value) = elim (Bool-cases (is_empty value)) [
    | inl empty ↦ (none, rw empty refl)
    | inr full ↦
        let (parts, e) = parts_all value in
        let (token, safe) = bearer_token_safe parts in (token, rw (full, e) safe)
  ]

  token_of_scope_safe :
      (scope : Scope) → (token : Option String) × (token_of_scope libs scope ≡ returned token)
  unfolding token_of_scope http_extract_safe extract
  token_of_scope_safe scope = elim (Bool-cases (str_eq scope.scope_type "http")) [
    | inl http ↦
        let (token, safe) = extract_header_safe (libs.header scope.headers "Authorization") in
        (token, rw http safe)
    | inr other ↦ (none, rw other refl)
  ]

-- After every HTTP request and every connection of a websocket, whatever the application does and
-- however the authentication ends, no token and no logging context is left in the context
-- variables, if FastAPI splits every Authorization header without raising.
pub context_is_cleared :
    (libs : Libraries) (config : OpenIdConfiguration) (now : ℕ) (uuid : Uuid) (app : App)
    (receive : Receive) (send : Send) (c : Connection)
    → PartsAllTexts libs
    → is_request c.scope.scope_type ≡ true
    → (serve libs config now uuid app receive send c).1.context
      ≡ record { jwt_token = none; log_context = end }
unfolding clear_context
context_is_cleared libs config now uuid app receive send c parts_all request =
    let (token, e) = token_of_scope_safe libs parts_all c.scope in
    ap (λ r. r.1.context) (serve-entered libs config now uuid app receive send c token request e)
