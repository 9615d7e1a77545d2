-- ===== src/Authentication/Entered.antt =====
-- The connection that the middlewares hand on, and the answers to the exceptions.
use python_agent_with_idp.Prelude.{
  String, ◌≡◌, refl, arith, Bool, true, false, if◌then◌else◌, Option, some,
}
use python_agent_with_idp.Json.{Json, str}
use python_agent_with_idp.Json.Values.{store}
use python_agent_with_idp.Run.Status.{Uuid}
use python_agent_with_idp.Error.{
  Exception, decode_error, invalid_claim_error, expired_token_error, invalid_token_error,
  jose_error, authentication_error,
}
use python_agent_with_idp.Exec.{Outcome, returned, Exec, Done, ◌>>=◌, finally}
use python_agent_with_idp.Authentication.{Libraries}
use python_agent_with_idp.Authentication.Validator.{translate}
use python_agent_with_idp.Authentication.Connection.{Connection, Response, or_empty_state}
use python_agent_with_idp.Authentication.Context.{
  generate_request_id, set_default_state, bind_context, clear_context, with_context, token_of_scope,
  production_enrich_from_scope,
}
use python_agent_with_idp.Authentication.Middlewares.{detail_response, bind_user, refusal}

-- The connection inside the context of a request.
abbrev pub entered : Uuid → Option String → Connection → Connection
entered uuid token c =
    bind_context (generate_request_id uuid) c.scope.scope_type token (set_default_state c)

-- Inside the context, with the user: what the application finds in its scope and what the log shows.
abbrev pub identified : Uuid → String → Json → Connection → Connection
identified uuid token user_id c = record c {
  scope = record c.scope {
    state = some (record {
      request_id = some (generate_request_id uuid);
      jwt_token = some token;
      user_id = some user_id;
    });
  };
  context = record {
    jwt_token = some token;
    log_context = store "user_id" user_id (
        store "scope_type" (str c.scope.scope_type)
          (store "request_id" (str (generate_request_id uuid)) c.context.log_context));
  };
}

pub bind_user-entered :
    (uuid : Uuid) (token : String) (user_id : Json) (c : Connection)
    → bind_user user_id (entered uuid (some token) c) ≡ identified uuid token user_id c
unfolding bind_user bind_context set_default_state or_empty_state
bind_user-entered uuid token user_id c = refl

-- What is left behind, after the context has been cleared.
abbrev pub cleared : Outcome Done × Connection → Outcome Done × Connection
cleared (r, c) = (r, clear_context c)

-- The exceptions that say that a token is not valid.
abbrev pub is_verdict : Exception → Bool
is_verdict (authentication_error message) = true
is_verdict (jose_error decode_error message) = true
is_verdict (jose_error invalid_claim_error message) = true
is_verdict (jose_error expired_token_error message) = true
is_verdict (jose_error invalid_token_error message) = true
is_verdict _ = false

-- 401 for these, and 500 for all other exceptions.
abbrev pub answer_for : Exception → Response
answer_for exc =
    if is_verdict exc
    then detail_response 401 "Authentication failed"
    else detail_response 500 "Unexpected error during authentication"

pub refusal-translate : (exc : Exception) → refusal (translate exc) ≡ answer_for exc
unfolding refusal translate
refusal-translate exc = ground arith

module _ (libs : Libraries) (uuid : Uuid) (body : Exec Connection Done) (c : Connection) where
  pub enrich_enters :
      (token : Option String)
      → token_of_scope libs c.scope ≡ returned token
      → production_enrich_from_scope libs uuid body c ≡ cleared (body (entered uuid token c))
  unfolding production_enrich_from_scope with_context finally ◌>>=◌ set_default_state bind_context
      or_empty_state token_of_scope
  enrich_enters token e = rw e refl
