-- ===== src/Authentication/Tokens.antt =====
-- Which requests carry a token.
use python_agent_with_idp.Prelude.{
  String, ◌≡◌, refl, ap, ◌∙◌, Bool-cases, inl, inr, true, false, Option, none, some,
}
use python_agent_with_idp.Texts.{is_empty, lower_is}
use python_agent_with_idp.Json.{str}
use python_agent_with_idp.Exec.{returned}
use python_agent_with_idp.Exec.Results.{◌>>=◌}
use python_agent_with_idp.Authentication.{Libraries}
use python_agent_with_idp.Authentication.Manager.{has_token}
use python_agent_with_idp.Authentication.Extractors.{
  bearer_token, none_on_invalid_header, extract_header, extract, http_extract_safe,
}
use python_agent_with_idp.Authentication.Connection.{Scope}
use python_agent_with_idp.Authentication.Context.{token_of_scope}
use python_agent_with_idp.Authentication.Middlewares.{is_request}

-- A request that carries no token: a connection of a websocket, or an HTTP request without an
-- Authorization header, with another scheme than Bearer, or with nothing after it.
pub data IsAnonymous (libs : Libraries) (scope : Scope) : Type 0 where
  websocket : scope.scope_type ≡ "websocket" → IsAnonymous libs scope
  no_header :
      scope.scope_type ≡ "http"
      → libs.header scope.headers "Authorization" ≡ none
      → IsAnonymous libs scope
  other_scheme :
      (auth_header scheme token : String)
      → scope.scope_type ≡ "http"
      → libs.header scope.headers "Authorization" ≡ some auth_header
      → libs.get_authorization_scheme_param (str auth_header) ≡ returned (scheme, token)
      → lower_is scheme "bearer" ≡ false
      → IsAnonymous libs scope
  nothing_follows :
      (auth_header scheme : String)
      → scope.scope_type ≡ "http"
      → libs.header scope.headers "Authorization" ≡ some auth_header
      → libs.get_authorization_scheme_param (str auth_header) ≡ returned (scheme, "")
      → IsAnonymous libs scope

-- An HTTP request whose Authorization header has the scheme Bearer and a token.
pub record SendsToken (libs : Libraries) (scope : Scope) (token : String) : Type 0 where
  pub is_http : scope.scope_type ≡ "http"
  pub auth_header : String
  pub header_there : libs.header scope.headers "Authorization" ≡ some auth_header
  pub header_full : is_empty auth_header ≡ false
  pub scheme : String
  pub parts : libs.get_authorization_scheme_param (str auth_header) ≡ returned (scheme, token)
  pub is_bearer : lower_is scheme "bearer" ≡ true
  pub token_full : is_empty token ≡ false

is_request_http : (scope_type : String) → scope_type ≡ "http" → is_request scope_type ≡ true
unfolding is_request
is_request_http scope_type e = rw e refl

is_request_websocket :
    (scope_type : String) → scope_type ≡ "websocket" → is_request scope_type ≡ true
unfolding is_request
is_request_websocket scope_type e = rw e refl

bearer_token_lem :
    (scheme token : String)
    → lower_is scheme "bearer" ≡ true
    → bearer_token (scheme, token) ≡ returned token
unfolding bearer_token lower_is
bearer_token_lem String.[] token h = cc
bearer_token_lem (String.◌∷◌ c scheme) token h = rw h refl

bearer_token_other :
    (scheme token : String)
    → lower_is scheme "bearer" ≡ false
    → none_on_invalid_header (bearer_token (scheme, token)) ≡ returned none
unfolding bearer_token none_on_invalid_header
bearer_token_other scheme token h = elim (Bool-cases (is_empty scheme)) [
  | inl empty ↦ rw empty refl
  | inr full ↦ rw (full, h) refl
]

extract_blank :
    (libs : Libraries) (auth_header : String)
    → is_empty auth_header ≡ true
    → none_on_invalid_header (extract_header libs (some auth_header)) ≡ returned none
unfolding extract_header none_on_invalid_header
extract_blank libs auth_header empty = rw empty refl

module _ (libs : Libraries) (auth_header scheme token : String)
    (parts : libs.get_authorization_scheme_param (str auth_header) ≡ returned (scheme, token)) where
  extract_full :
      is_empty auth_header ≡ false
      → extract_header libs (some auth_header) ≡ bearer_token (scheme, token)
  unfolding extract_header ◌>>=◌
  extract_full full = rw (full, parts) refl

  extract_other :
      lower_is scheme "bearer" ≡ false
      → none_on_invalid_header (extract_header libs (some auth_header)) ≡ returned none
  extract_other h = elim (Bool-cases (is_empty auth_header)) [
    | inl empty ↦ extract_blank libs auth_header empty
    | inr full ↦ ap none_on_invalid_header (extract_full full) ∙ bearer_token_other scheme token h
  ]

module _ (libs : Libraries) (scope : Scope) where
  token_of_websocket : scope.scope_type ≡ "websocket" → token_of_scope libs scope ≡ returned none
  unfolding token_of_scope
  token_of_websocket e = rw e refl

  token_of_http :
      (auth_header : Option String)
      → scope.scope_type ≡ "http"
      → libs.header scope.headers "Authorization" ≡ auth_header
      → token_of_scope libs scope ≡ none_on_invalid_header (extract_header libs auth_header)
  unfolding token_of_scope http_extract_safe extract
  token_of_http auth_header e h = rw (e, h) refl

  pub token_of_sender :
      (token : String)
      → SendsToken libs scope token
      → token_of_scope libs scope ≡ returned (some token)
  unfolding none_on_invalid_header
  token_of_sender token sends =
      token_of_http (some sends.auth_header) sends.is_http sends.header_there
      ∙ ap none_on_invalid_header (
          extract_full libs sends.auth_header sends.scheme token sends.parts sends.header_full
          ∙ bearer_token_lem sends.scheme token sends.is_bearer)

  -- `token_of_scope` gives no token to authenticate.
  abbrev GivesNone : Type 0
  GivesNone =
      (token : Option String) × (token_of_scope libs scope ≡ returned token)
      × (has_token token ≡ false)

  pub token_of_anonymous : IsAnonymous libs scope → GivesNone
  unfolding none_on_invalid_header extract_header has_token
  token_of_anonymous (websocket w) = (none, token_of_websocket w, refl)
  token_of_anonymous (no_header h missing) = (none, token_of_http none h missing, refl)
  token_of_anonymous (other_scheme auth_header scheme token h there parts other) = (
    none,
    token_of_http (some auth_header) h there
        ∙ extract_other libs auth_header scheme token parts other,
    refl,
  )
  token_of_anonymous (nothing_follows auth_header scheme h there parts) =
      elim (Bool-cases (is_empty auth_header)) [
        | inl empty ↦ (
          none,
          token_of_http (some auth_header) h there ∙ extract_blank libs auth_header empty,
          refl,
        )
        | inr full ↦ elim (Bool-cases (lower_is scheme "bearer")) [
          | inl bearer ↦ (
            some "",
            token_of_http (some auth_header) h there
                ∙ ap none_on_invalid_header (
                    extract_full libs auth_header scheme "" parts full
                    ∙ bearer_token_lem scheme "" bearer),
            refl,
          )
          | inr other ↦ (
            none,
            token_of_http (some auth_header) h there
                ∙ extract_other libs auth_header scheme "" parts other,
            refl,
          )
        ]
      ]

  pub anonymous_is_request : IsAnonymous libs scope → is_request scope.scope_type ≡ true
  anonymous_is_request (websocket w) = is_request_websocket scope.scope_type w
  anonymous_is_request (no_header h missing) = is_request_http scope.scope_type h
  anonymous_is_request (other_scheme a s t h there parts other) = is_request_http scope.scope_type h
  anonymous_is_request (nothing_follows a s h there parts) = is_request_http scope.scope_type h

  pub sender_is_request :
      (token : String) → SendsToken libs scope token → is_request scope.scope_type ≡ true
  sender_is_request token sends = is_request_http scope.scope_type sends.is_http
