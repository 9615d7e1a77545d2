-- ===== src/Authentication/Identified.antt =====
-- What the authentication of a request comes to, by its token.
use python_agent_with_idp.Prelude.{
  ℕ, String, ◌≡◌, refl, Bool-cases, inl, inr, false, Option, none, some,
}
use python_agent_with_idp.Texts.{is_empty}
use python_agent_with_idp.Json.{Json, str, obj, Fields}
use python_agent_with_idp.Json.Values.{lookup}
use python_agent_with_idp.Error.{Exception, permission_error}
use python_agent_with_idp.Exec.{Outcome, returned, raised, ◌>>=◌}
use python_agent_with_idp.Exec.Results
use python_agent_with_idp.Authentication.{Libraries, KeyLoader}
use python_agent_with_idp.Authentication.Claims.{AuthenticatedUser, parse_keycloak_claims}
use python_agent_with_idp.Authentication.Keys.{build_key_loader}
use python_agent_with_idp.Authentication.Validator.{
  JwtValidationClient, subscript, as_address, translating, get_oidc_metadata, get_jwks,
  decode_token, authenticate,
}
use python_agent_with_idp.Authentication.Manager.{
  OpenIdConfiguration, has_token, audience, authenticate_present, authenticate_jwt_token,
}
use python_agent_with_idp.Authentication.Connection.{Connection, on_client}
use python_agent_with_idp.Authentication.Middlewares.{extracted_token, bind_user, identify}

-- The documents of the identity provider are cached, and have what the validation needs.
pub record IsReady (config : OpenIdConfiguration) (client : JwtValidationClient) (issuer : Json)
    (key_loader : KeyLoader) : Type 0 where
  pub metadata : Fields
  pub jwks_uri : String
  pub jwks : Json
  pub metadata_cached :
      lookup config.openid_discovery_url client.metadata_cache ≡ some (obj metadata)
  pub jwks_uri_there : lookup "jwks_uri" metadata ≡ some (str jwks_uri)
  pub issuer_there : lookup "issuer" metadata ≡ some issuer
  pub jwks_cached : lookup jwks_uri client.jwks_cache ≡ some jwks
  pub keys_usable : build_key_loader jwks ≡ returned key_loader

-- The judgement of authlib on a token.
unfoldable pub judge : Libraries → ℕ → String → Json → KeyLoader → Outcome Fields
judge libs now token issuer key_loader =
    Results.◌>>=◌ (libs.decode token key_loader (record { issuer = issuer })) λ claims.
      Results.◌>>=◌ (libs.validate_claims now claims) λ _. returned (libs.claims_dict claims)

module _ (libs : Libraries) (config : OpenIdConfiguration) (now : ℕ) where
  module _ (client : JwtValidationClient) (issuer : Json) (key_loader : KeyLoader)
      (ready : IsReady config client issuer key_loader) where
    metadata_ready :
        get_oidc_metadata libs config.openid_discovery_url client
        ≡ (returned (obj ready.metadata), client)
    unfolding get_oidc_metadata
    metadata_ready = rw (ready.metadata_cached, get_oidc_metadata) refl

    jwks_ready : get_jwks libs ready.jwks_uri client ≡ (returned ready.jwks, client)
    unfolding get_jwks
    jwks_ready = rw (ready.jwks_cached, get_jwks) refl

    decode_ready :
        (token : String)
        → decode_token libs now token (obj ready.metadata) ready.jwks
          ≡ judge libs now token issuer key_loader
    unfolding decode_token judge subscript Results.or_raise Results.◌>>=◌
    decode_ready token = rw (ready.keys_usable, ready.issuer_there) refl

    pub authenticate_ready :
        (token : String)
        → authenticate libs now token audience config.openid_discovery_url client
          ≡ (translating (judge libs now token issuer key_loader), client)
    unfolding authenticate subscript as_address Results.or_raise ◌>>=◌
    authenticate_ready token =
        rw (metadata_ready, ready.jwks_uri_there, jwks_ready, decode_ready token) refl

pub identify_missing :
    (libs : Libraries) (config : OpenIdConfiguration) (now : ℕ) (c : Connection)
    (token : Option String)
    → extracted_token c.scope.state ≡ returned token
    → has_token token ≡ false
    → identify libs config now c ≡ (raised (permission_error "Missing token"), c)
unfolding identify authenticate_jwt_token on_client has_token ◌>>=◌
identify_missing libs config now c none e h = rw e refl
identify_missing libs config now c (some token) e h = elim (Bool-cases (is_empty token)) [
  | inl empty ↦ rw (e, empty) refl
  | inr present ↦ cc (rw present at h)
]

module _ (libs : Libraries) (config : OpenIdConfiguration) (now : ℕ) (c : Connection)
    (token : String) (present : is_empty token ≡ false)
    (there : extracted_token c.scope.state ≡ returned (some token)) where
  pub identify_user :
      (claims : Fields) (user : AuthenticatedUser) (client : JwtValidationClient)
      → authenticate libs now token audience config.openid_discovery_url c.client
        ≡ (returned claims, client)
      → parse_keycloak_claims claims ≡ returned user
      → identify libs config now c
        ≡ (returned tt, bind_user user.user_id (record c { client = client }))
  unfolding identify authenticate_jwt_token authenticate_present on_client ◌>>=◌
  identify_user claims user client e p = rw (there, present, e, p) refl

  pub identify_fails :
      (exc : Exception) (client : JwtValidationClient)
      → authenticate libs now token audience config.openid_discovery_url c.client
        ≡ (raised exc, client)
      → identify libs config now c ≡ (raised exc, record c { client = client })
  unfolding identify authenticate_jwt_token authenticate_present on_client ◌>>=◌
  identify_fails exc client e = rw (there, present, e) refl
