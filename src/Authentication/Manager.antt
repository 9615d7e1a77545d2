-- ===== src/Authentication/Manager.antt =====
-- llm_agent/llm_agent/infrastructure/authentication/jwt_manager.py and
-- llm_agent/llm_agent/infrastructure/service_discovery/static/static_oidc.py.
use python_agent_with_idp.Prelude.{
  ℕ, String, Bool, true, false, if◌then◌else◌, Option, none, some, List, [], ◌∷◌,
}
use python_agent_with_idp.Texts.{is_empty}
use python_agent_with_idp.Error.{permission_error}
use python_agent_with_idp.Exec.{Exec, raise, lift, ◌>>=◌}
use python_agent_with_idp.Authentication.{Libraries}
use python_agent_with_idp.Authentication.Claims.{AuthenticatedUser, parse_keycloak_claims}
use python_agent_with_idp.Authentication.Validator.{JwtValidationClient, authenticate}

pub record OpenIdConfiguration : Type 0 where
  pub realm_name : String
  pub openid_discovery_url : String

-- StaticOpenIdConfigurationProvider: its `__init__` keeps the configuration that a call gives back.
unfoldable pub static_configuration : String → String → OpenIdConfiguration
static_configuration realm_name discovery_url = record {
  realm_name = realm_name;
  openid_discovery_url = discovery_url;
}

-- `not token`, negated
unfoldable pub has_token : Option String → Bool
has_token none = false
has_token (some token) = if is_empty token then false else true

abbrev pub audience : List String
audience = "fill-in" ∷ []

module _ (libs : Libraries) (config : OpenIdConfiguration) where
  -- What follows the test for a missing token.
  unfoldable pub authenticate_present : ℕ → String → Exec JwtValidationClient AuthenticatedUser
  unfolding authenticate
  authenticate_present now token = do
    claims ← authenticate libs now token audience config.openid_discovery_url
    lift (parse_keycloak_claims claims)

  unfoldable pub authenticate_jwt_token :
      ℕ → Option String → Exec JwtValidationClient AuthenticatedUser
  unfolding authenticate_present
  authenticate_jwt_token now none = raise (permission_error "Missing token")
  authenticate_jwt_token now (some token) =
      if is_empty token
      then raise (permission_error "Missing token")
      else authenticate_present now token

-- ProdAuthRegistrar.create_openid_conf_provider of llm_agent/llm_agent/di/registrars/auth.py
unfoldable pub production_configuration : OpenIdConfiguration
unfolding static_configuration
production_configuration =
    static_configuration "throttling_test" "http://localhost:8082/realms/throttling-test"
