-- ===== src/Authentication/Validator.antt =====
-- llm_agent/llm_agent/infrastructure/authentication/jwt_validator.py. A request over the network is
-- recorded, the last one first.
pub mod Cached
use python_agent_with_idp.Prelude.{
  ℕ, String, Bool, true, false, if◌then◌else◌, Option, none, some, List, [], ◌∷◌,
}
use python_agent_with_idp.Json.{Json, str, obj, Fields, end}
use python_agent_with_idp.Json.Values.{lookup, store}
use python_agent_with_idp.Error.{
  Exception, JoseError, decode_error, invalid_claim_error, expired_token_error, invalid_token_error,
  other_jose_error, jose_error, missing_key, type_error, authentication_error,
}
use python_agent_with_idp.Exec.{
  Outcome, returned, raised, Exec, Done, return, lift, gets, modify, ◌>>=◌, ◌>>◌,
}
use python_agent_with_idp.Exec.Results
use python_agent_with_idp.Authentication.{Libraries}
use python_agent_with_idp.Authentication.Keys.{build_key_loader}

pub record JwtValidationClient : Type 0 where
  pub metadata_cache : Fields
  pub jwks_cache : Fields
  pub requested : List String

unfoldable pub new_validation_client : JwtValidationClient
new_validation_client = record { metadata_cache = end; jwks_cache = end; requested = [] }

-- value[k], for a text `k`
unfoldable pub subscript : String → Json → Outcome Json
subscript k (obj fs) = Results.or_raise (missing_key k) (lookup k fs)
subscript k _ = raised (type_error "object is not subscriptable")

-- A value that is looked up in the cache and requested: what is no text raises TypeError in one
-- of the two.
unfoldable pub as_address : Json → Outcome String
as_address (str address) = returned address
as_address _ = raised (type_error "no address")

-- except (DecodeError, InvalidClaimError, ExpiredTokenError, InvalidTokenError)
unfoldable pub is_caught : JoseError → Bool
is_caught decode_error = true
is_caught invalid_claim_error = true
is_caught expired_token_error = true
is_caught invalid_token_error = true
is_caught (other_jose_error name) = false

unfoldable pub translate : Exception → Exception
unfolding is_caught
translate (jose_error kind message) =
    if is_caught kind
    then authentication_error "Token validation failed"
    else jose_error kind message
translate e = e

-- The try statement of `authenticate`, around its body.
unfoldable pub translating : Outcome Fields → Outcome Fields
unfolding translate
translating (returned claims) = returned claims
translating (raised e) = raised (translate e)

module _ (libs : Libraries) where
  -- resp = await self._client.get(url); resp.raise_for_status(); resp.json()
  unfoldable pub fetch : String → Exec JwtValidationClient Json
  fetch url = do
    before ← gets (λ c. c.requested)
    modify (λ c. record c { requested = url ∷ before })
    response ← lift (libs.http_get before url)
    lift (libs.raise_for_status response)
    lift (libs.response_json response)

  -- self._metadata_cache[issuer] = metadata, and then its value
  unfoldable pub cache_metadata : String → Json → Exec JwtValidationClient Json
  cache_metadata issuer metadata client = (
    returned metadata,
    record client { metadata_cache = store issuer metadata client.metadata_cache },
  )

  -- The branch of a document that is not cached.
  unfoldable pub fetch_metadata : String → Exec JwtValidationClient Json
  unfolding fetch cache_metadata
  fetch_metadata issuer = do
    metadata ← fetch (libs.get_well_known_url issuer)
    cache_metadata issuer metadata

  unfoldable pub get_oidc_metadata : String → Exec JwtValidationClient Json
  unfolding fetch_metadata
  get_oidc_metadata issuer client = elim (lookup issuer client.metadata_cache) [
    | some metadata ↦ return metadata client
    | none ↦ fetch_metadata issuer client
  ]

  unfoldable pub cache_jwks : String → Json → Exec JwtValidationClient Json
  cache_jwks jwks_uri jwks client =
      (returned jwks, record client { jwks_cache = store jwks_uri jwks client.jwks_cache })

  unfoldable pub fetch_jwks : String → Exec JwtValidationClient Json
  unfolding fetch cache_jwks
  fetch_jwks jwks_uri = do jwks ← fetch jwks_uri; cache_jwks jwks_uri jwks

  unfoldable pub get_jwks : String → Exec JwtValidationClient Json
  unfolding fetch_jwks
  get_jwks jwks_uri client = elim (lookup jwks_uri client.jwks_cache) [
    | some jwks ↦ return jwks client
    | none ↦ fetch_jwks jwks_uri client
  ]

  -- The body of the try statement.
  unfoldable pub decode_token : ℕ → String → Json → Json → Outcome Fields
  decode_token now token metadata jwks = Results.◌>>=◌ (build_key_loader jwks) λ key_loader.
      Results.◌>>=◌ (subscript "issuer" metadata) λ issuer.
        Results.◌>>=◌ (libs.decode token key_loader (record { issuer = issuer })) λ claims.
          Results.◌>>=◌ (libs.validate_claims now claims) λ _. returned (libs.claims_dict claims)

  -- `audience` is not used: the check of "aud" is commented out.
  unfoldable pub authenticate : ℕ → String → List String → String → Exec JwtValidationClient Fields
  unfolding get_oidc_metadata get_jwks decode_token translating
  authenticate now token audience oidc_discovery_url = do
    metadata ← get_oidc_metadata oidc_discovery_url
    jwks_uri_value ← lift (subscript "jwks_uri" metadata)
    jwks_uri ← lift (as_address jwks_uri_value)
    jwks ← get_jwks jwks_uri
    lift (translating (decode_token now token metadata jwks))
