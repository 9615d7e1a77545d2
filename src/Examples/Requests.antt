-- ===== src/Examples/Requests.antt =====
-- The middlewares at concrete requests.
use python_agent_with_idp.Prelude.{String, ◌≡◌, refl, true, false, Option, none, some, [], ◌∷◌}
use python_agent_with_idp.Texts.{lower_is}
use python_agent_with_idp.Json.{str, obj, end}
use python_agent_with_idp.Json.Values.{lookup, items_of, elements}
use python_agent_with_idp.Error.{jose_error, other_jose_error}
use python_agent_with_idp.Exec.{returned, raised}
use python_agent_with_idp.Exec.Results.{◌>>=◌, or_raise}
use python_agent_with_idp.Authentication.{Headers, KeyLoader}
use python_agent_with_idp.Authentication.Claims.{as_dict}
use python_agent_with_idp.Authentication.Keys.{
  is_hashable, put_key, add_key, add_keys, load_key, build_key_loader,
}
use python_agent_with_idp.Authentication.Manager.{has_token}
use python_agent_with_idp.Authentication.Connection.{Connection, App, Receive, Send}
use python_agent_with_idp.Authentication.Middlewares.{detail_response, is_request, is_excluded}
use python_agent_with_idp.Authentication.Identified.{IsReady, judge}
use python_agent_with_idp.Authentication.Tokens.{IsAnonymous, SendsToken}
use python_agent_with_idp.Authentication.Entered.{entered, identified, cleared}
use python_agent_with_idp.Authentication.Answers.{
  serve, anonymous_request_answers, valid_token_answers, invalid_token_answers,
}
use python_agent_with_idp.Authentication.Cleared.{PartsAllTexts, context_is_cleared}
use python_agent_with_idp.Examples.Tokens.{
  scheme_param, find_header, url, key_fields, metadata, jwks, claims, ada, ada_parsed,
  decode_sample, sample, config, warm,
}

abbrev silent : Receive
silent c = (returned (record { message_type = none; text = none }), c)

-- What is sent is seen in the outcome of this application and of this way to send.
abbrev accept : App
accept receive send = send (detail_response 200 "ok")

abbrev note : Send
note response c =
    (returned tt, record c { client = record c.client { requested = "sent" ∷ c.client.requested } })

abbrev request : String → Option String → Headers → Connection
request scope_type path headers = record {
  scope = record { scope_type = scope_type; path = path; headers = headers; state = none };
  context = record { jwt_token = none; log_context = end };
  client = warm;
}

abbrev health : Connection
health = request "http" (some "/api/v1/health/dummy-health") []

health_guarded : is_excluded health.scope.path ≡ false
unfolding is_excluded
health_guarded = refl

no_header_there : sample.header [] "Authorization" ≡ none
unfolding find_header
no_header_there = refl

anonymous_request_answers_example :
    (token : Option String) × (serve sample config 3 9 accept silent note health
      ≡ cleared (
          note
            (detail_response 500 "Unexpected error during authentication")
            (entered 9 token health)))
    × (has_token token ≡ false)
anonymous_request_answers_example =
    anonymous_request_answers sample config 3 9 accept silent note health
      (IsAnonymous.no_header refl no_header_there) health_guarded

abbrev with_token : String → Connection
with_token header = request "http" (some "/api/v1/agent/runs") (("Authorization", header) ∷ [])

abbrev loader : KeyLoader
loader = load_key ((str "k1", obj key_fields) ∷ [])

keys_usable : build_key_loader (obj jwks) ≡ returned loader
unfolding build_key_loader as_dict elements items_of or_raise ◌>>=◌ add_keys add_key is_hashable
    lookup put_key
keys_usable = refl

issuer_there : lookup "issuer" metadata ≡ some (str url)
unfolding lookup
issuer_there = refl

jwks_uri_there : lookup "jwks_uri" metadata ≡ some (str "http://idp/keys")
unfolding lookup
jwks_uri_there = refl

metadata_cached : lookup url warm.metadata_cache ≡ some (obj metadata)
unfolding lookup
metadata_cached = refl

jwks_cached : lookup "http://idp/keys" warm.jwks_cache ≡ some (obj jwks)
unfolding lookup
jwks_cached = refl

warm-IsReady : IsReady config warm (str url) loader
warm-IsReady = record {
  metadata = metadata;
  jwks_uri = "http://idp/keys";
  jwks = obj jwks;
  metadata_cached = metadata_cached;
  jwks_uri_there = jwks_uri_there;
  issuer_there = issuer_there;
  jwks_cached = jwks_cached;
  keys_usable = keys_usable;
}

good_sent : SendsToken sample (with_token "Bearer good").scope "good"
unfolding find_header scheme_param lower_is
good_sent = record {
  is_http = refl;
  auth_header = "Bearer good";
  header_there = refl;
  header_full = refl;
  scheme = "Bearer";
  parts = refl;
  is_bearer = refl;
  token_full = refl;
}

bad_sent : SendsToken sample (with_token "bearer bad").scope "bad"
unfolding find_header scheme_param lower_is
bad_sent = record {
  is_http = refl;
  auth_header = "bearer bad";
  header_there = refl;
  header_full = refl;
  scheme = "bearer";
  parts = refl;
  is_bearer = refl;
  token_full = refl;
}

api_guarded : is_excluded (some "/api/v1/agent/runs") ≡ false
unfolding is_excluded
api_guarded = refl

good_judged : judge sample 3 "good" (str url) loader ≡ returned claims
unfolding judge decode_sample ◌>>=◌
good_judged = refl

bad_judged :
    judge sample 3 "bad" (str url) loader
    ≡ raised (jose_error (other_jose_error "BadSignatureError") "")
unfolding judge decode_sample ◌>>=◌
bad_judged = refl

valid_token_answers_example :
    serve sample config 3 9 accept silent note (with_token "Bearer good")
    ≡ cleared (
        note (detail_response 200 "ok") (identified 9 "good" (str "u1") (with_token "Bearer good")))
valid_token_answers_example =
    valid_token_answers sample config 3 9 accept silent note (with_token "Bearer good") "good"
      (str url) loader good_sent api_guarded warm-IsReady claims ada good_judged ada_parsed

invalid_token_answers_example :
    serve sample config 3 9 accept silent note (with_token "bearer bad")
    ≡ cleared (
        note
          (detail_response 500 "Unexpected error during authentication")
          (entered 9 (some "bad") (with_token "bearer bad")))
invalid_token_answers_example =
    invalid_token_answers sample config 3 9 accept silent note (with_token "bearer bad") "bad"
      (str url) loader bad_sent api_guarded warm-IsReady
      (jose_error (other_jose_error "BadSignatureError") "") bad_judged

sample_parts : PartsAllTexts sample
unfolding scheme_param
sample_parts value = (_, refl)

http_is_request : is_request "http" ≡ true
unfolding is_request
http_is_request = refl

context_is_cleared_example :
    (serve sample config 3 9 accept silent note (with_token "Bearer good")).1.context
    ≡ record { jwt_token = none; log_context = end }
context_is_cleared_example =
    context_is_cleared sample config 3 9 accept silent note (with_token "Bearer good") sample_parts
      http_is_request
