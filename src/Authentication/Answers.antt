-- ===== src/Authentication/Answers.antt =====
-- What the two middlewares, in the order of the application, do with a request.
use python_agent_with_idp.Prelude.{ℕ, String, ◌≡◌, refl, ap, ◌∙◌, true, false, Option, some}
use python_agent_with_idp.Json.{Json, Fields}
use python_agent_with_idp.Run.Status.{Uuid}
use python_agent_with_idp.Error.{Exception}
use python_agent_with_idp.Exec.{Outcome, returned, raised, Done}
use python_agent_with_idp.Authentication.{Libraries, KeyLoader}
use python_agent_with_idp.Authentication.Claims.{AuthenticatedUser, parse_keycloak_claims}
use python_agent_with_idp.Authentication.Validator.{translate, translating, authenticate}
use python_agent_with_idp.Authentication.Manager.{OpenIdConfiguration, has_token, audience}
use python_agent_with_idp.Authentication.Connection.{Connection, App, Receive, Send}
use python_agent_with_idp.Authentication.Context.{
  set_default_state, bind_context, token_of_scope, production_enrich_from_scope,
  instrumented_receive, production_enricher,
}
use python_agent_with_idp.Authentication.Middlewares.{
  is_request, is_excluded, detail_response, extracted_token, refusal, answer_identified,
  authenticate_request, authentication_middleware, execution_context_middleware,
  register_middlewares,
}
use python_agent_with_idp.Authentication.Identified.{
  IsReady, judge, authenticate_ready, identify_missing, identify_user, identify_fails,
}
use python_agent_with_idp.Authentication.Tokens.{
  IsAnonymous, SendsToken, token_of_sender, token_of_anonymous, anonymous_is_request,
  sender_is_request,
}
use python_agent_with_idp.Authentication.Entered.{
  entered, identified, bind_user-entered, cleared, answer_for, refusal-translate, enrich_enters,
}

module _ (libs : Libraries) (config : OpenIdConfiguration) (now : ℕ) (app : App) (receive : Receive)
    (send : Send) (c : Connection) where
  guard_request :
      is_request c.scope.scope_type ≡ true
      → is_excluded c.scope.path ≡ false
      → authentication_middleware libs config now app receive send c
        ≡ authenticate_request libs config now app receive send c
  unfolding authentication_middleware
  guard_request request guarded = rw (request, guarded) refl

scope_type-entered :
    (uuid : Uuid) (token : Option String) (c : Connection)
    → (entered uuid token c).scope.scope_type ≡ c.scope.scope_type
unfolding bind_context set_default_state
scope_type-entered uuid token c = refl

path-entered :
    (uuid : Uuid) (token : Option String) (c : Connection)
    → (entered uuid token c).scope.path ≡ c.scope.path
unfolding bind_context set_default_state
path-entered uuid token c = refl

state-entered :
    (uuid : Uuid) (token : Option String) (c : Connection)
    → extracted_token (entered uuid token c).scope.state ≡ returned token
unfolding bind_context extracted_token
state-entered uuid token c = refl

client-entered :
    (uuid : Uuid) (token : Option String) (c : Connection)
    → (entered uuid token c).client ≡ c.client
unfolding bind_context set_default_state
client-entered uuid token c = refl

module _ (libs : Libraries) (config : OpenIdConfiguration) (now : ℕ) (uuid : Uuid) (app : App)
    (receive : Receive) (send : Send) (c : Connection) where
  -- The middlewares of the application around it.
  abbrev pub serve : Outcome Done × Connection
  serve = register_middlewares libs config now (production_enricher libs) uuid app receive send c

  -- The answer that a request gets inside its context.
  abbrev handled : Option String → Outcome Done × Connection
  handled token =
      authenticate_request libs config now app (instrumented_receive libs receive) send
        (entered uuid token c)

  serve_request :
      is_request c.scope.scope_type ≡ true
      → serve
        ≡ production_enrich_from_scope libs uuid
            (authentication_middleware libs config now app (instrumented_receive libs receive) send)
            c
  unfolding register_middlewares execution_context_middleware production_enricher
  serve_request request = rw request refl

  pub serve-entered :
      (token : Option String)
      → is_request c.scope.scope_type ≡ true
      → token_of_scope libs c.scope ≡ returned token
      → serve
        ≡ cleared (
            authentication_middleware libs config now app
              (instrumented_receive libs receive)
              send
              (entered uuid token c))
  serve-entered token request e =
      serve_request request
      ∙ enrich_enters libs uuid
          (authentication_middleware libs config now app (instrumented_receive libs receive) send) c
          token e

  serve_guarded :
      (token : Option String)
      → is_request c.scope.scope_type ≡ true
      → is_excluded c.scope.path ≡ false
      → token_of_scope libs c.scope ≡ returned token
      → serve ≡ cleared (handled token)
  serve_guarded token request guarded e =
      serve-entered token request e
      ∙ ap cleared (
          guard_request libs config now app (instrumented_receive libs receive) send
            (entered uuid token c) (ap is_request (scope_type-entered uuid token c) ∙ request)
            (ap is_excluded (path-entered uuid token c) ∙ guarded))

  -- A request without a token to a path that is not excluded is answered by 500, not by 401: a
  -- connection of a websocket, or an HTTP request without an Authorization header, with another
  -- scheme than Bearer, or with an empty token. The application is not called, no document is
  -- requested, and the context is cleared.
  pub anonymous_request_answers :
      IsAnonymous libs c.scope
      → is_excluded c.scope.path ≡ false
      → (token : Option String) × (serve
          ≡ cleared (
              send
                (detail_response 500 "Unexpected error during authentication")
                (entered uuid token c)))
        × (has_token token ≡ false)
  unfolding authenticate_request answer_identified refusal
  anonymous_request_answers anonymous guarded =
      let (token, gives, nothing) = token_of_anonymous libs c.scope anonymous in
      (
        token,
        serve_guarded token (anonymous_is_request libs c.scope anonymous) guarded gives
            ∙ ap cleared (
                rw
                  (identify_missing libs config now (entered uuid token c) token
                    (state-entered uuid token c) nothing)
                  refl),
        nothing,
      )

  module _ (token : String) (issuer : Json) (key_loader : KeyLoader)
      (sends : SendsToken libs c.scope token) (guarded : is_excluded c.scope.path ≡ false)
      (ready : IsReady config c.client issuer key_loader) where
    authenticate-entered :
        authenticate libs now token audience config.openid_discovery_url
          (entered uuid (some token) c).client
        ≡ (
          translating (judge libs now token issuer key_loader),
          (entered uuid (some token) c).client,
        )
    unfolding bind_context set_default_state
    authenticate-entered = authenticate_ready libs config now c.client issuer key_loader ready token

    serve_sender : serve ≡ cleared (handled (some token))
    serve_sender =
        serve_guarded (some token) (sender_is_request libs c.scope token sends) guarded
          (token_of_sender libs c.scope token sends)

    -- An HTTP request to a path that is not excluded, with a Bearer token that authlib
    -- accepts and whose claims can be parsed, when the documents of the identity provider are
    -- cached, reaches the application: in the context of the request, with the user's id in
    -- the state of the scope and in the log, and without a request to the identity provider.
    -- The context is cleared afterwards.
    pub valid_token_answers :
        (claims : Fields) (user : AuthenticatedUser)
        → judge libs now token issuer key_loader ≡ returned claims
        → parse_keycloak_claims claims ≡ returned user
        → serve
          ≡ cleared
              (app (instrumented_receive libs receive) send (identified uuid token user.user_id c))
    unfolding authenticate_request answer_identified
    valid_token_answers claims user judged parsed =
        serve_sender
        ∙ ap cleared (
            rw
              (identify_user libs config now (entered uuid (some token) c) token sends.token_full
                (state-entered uuid (some token) c) claims user (entered uuid (some token) c).client
                (rw judged at authenticate-entered) parsed)
              (ap (app (instrumented_receive libs receive) send)
                (bind_user-entered uuid token user.user_id c)))

    -- When authlib or the key loader raises for the Bearer token of such a request, the
    -- application is not called. The answer is 401 if the exception is an AuthenticationError
    -- or one of the four exceptions of authlib that are caught, and 500 for all others.
    pub invalid_token_answers :
        (exc : Exception)
        → judge libs now token issuer key_loader ≡ raised exc
        → serve ≡ cleared (send (answer_for exc) (entered uuid (some token) c))
    unfolding authenticate_request answer_identified
    invalid_token_answers exc judged =
        serve_sender
        ∙ ap cleared (
            rw
              (identify_fails libs config now (entered uuid (some token) c) token sends.token_full
                (state-entered uuid (some token) c) (translate exc)
                (entered uuid (some token) c).client (rw judged at authenticate-entered))
              (ap (λ response. send response (entered uuid (some token) c))
                (refusal-translate exc)))
