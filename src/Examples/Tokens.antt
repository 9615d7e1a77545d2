-- ===== src/Examples/Tokens.antt =====
-- The claims, keys and documents of authentication at concrete values.
use Prim.Native.Char.{code}
use Prim.Native.String.{◌++◌}
use python_agent_with_idp.Prelude.{
  String, str_eq, ◌==◌, ◌≡◌, refl, if◌then◌else◌, Option, none, some, [], ◌∷◌,
}
use python_agent_with_idp.Texts.{is_space, split}
use python_agent_with_idp.Json.{Json, null, str, arr, obj, nil, cons, Fields, end, field}
use python_agent_with_idp.Json.Values.{
  lookup, truthy, or_else, store, values_of, items_of, elements,
}
use python_agent_with_idp.Error.{jose_error, expired_token_error, other_jose_error, type_error}
use python_agent_with_idp.Exec
use python_agent_with_idp.Exec.{Outcome, returned, raised, Exec, Done, return}
use python_agent_with_idp.Exec.Results.{◌>>=◌, or_raise}
use python_agent_with_idp.Texts.Words.{join}
use python_agent_with_idp.Authentication.{Libraries, Headers, KeyLoader, ClaimsOptions}
use python_agent_with_idp.Authentication.Claims.{AuthenticatedUser, as_dict, parse_keycloak_claims}
use python_agent_with_idp.Authentication.Claims.Parsed.{
  RoleHolder, texts, parse_keycloak_claims_exact,
}
use python_agent_with_idp.Authentication.Keys.{is_hashable, add_key, add_keys, build_key_loader}
use python_agent_with_idp.Authentication.Keys.Known.{Key, load_key_finds_last}
use python_agent_with_idp.Authentication.Validator.{
  JwtValidationClient, new_validation_client, subscript, as_address, authenticate,
}
use python_agent_with_idp.Authentication.Validator.Cached.{cached_documents_stay}
use python_agent_with_idp.Authentication.Manager.{OpenIdConfiguration}

-- value.partition(" "), without the separator
partition : String → String → String × String
partition before String.[] = (before, "")
partition before (String.◌∷◌ c s) =
    let further = partition (before ++ String.◌∷◌ c String.[]) s in
    if code c == 32 then (before, s) else further

unfoldable pub scheme_param : Json → Outcome (String × String)
unfolding partition
scheme_param (str s) = returned (partition "" s)
scheme_param null = returned ("", "")
scheme_param _ = raised (type_error "no text")

unfoldable pub find_header : Headers → String → Option String
find_header [] name = none
find_header ((k, v) ∷ headers) name = if str_eq k name then some v else find_header headers name

abbrev pub url : String
url = "http://idp/realms/r"

abbrev pub realm_fields : Fields
realm_fields = field "roles" (arr (texts ("admin" ∷ []))) end

pub realm_roles_there : lookup "roles" realm_fields ≡ some (arr (texts ("admin" ∷ [])))
unfolding lookup
realm_roles_there = refl

abbrev pub realm_roles : RoleHolder
realm_roles = record {
  fields = realm_fields;
  roles = "admin" ∷ [];
  roles_there = realm_roles_there;
}

abbrev pub client_fields : Fields
client_fields = field "roles" (arr (texts ("read" ∷ "write" ∷ []))) end

pub client_roles_there : lookup "roles" client_fields ≡ some (arr (texts ("read" ∷ "write" ∷ [])))
unfolding lookup
client_roles_there = refl

abbrev pub client_roles : RoleHolder
client_roles = record {
  fields = client_fields;
  roles = "read" ∷ "write" ∷ [];
  roles_there = client_roles_there;
}

abbrev pub claims : Fields
claims = field "sub" (str "u1") (
    field "preferred_username" (str "ada") (
      field "email" (str "ada@idp") (
        field "realm_access" (obj realm_fields) (
          field "resource_access" (obj (field "api" (obj client_fields) end))
            (field "scope" (str "openid runs") end)))))

abbrev pub ada : AuthenticatedUser
ada = record {
  user_id = str "u1";
  username = str "ada";
  email = str "ada@idp";
  roles = str "admin" ∷ str "read" ∷ str "write" ∷ [];
  scopes = "openid" ∷ "runs" ∷ [];
}

pub ada_parsed : parse_keycloak_claims claims ≡ returned ada
unfolding parse_keycloak_claims or_raise lookup ◌>>=◌ as_dict elements items_of truthy or_else
    values_of split
ada_parsed = refl

parse_keycloak_claims_exact_example : parse_keycloak_claims claims ≡ returned ada
unfolding lookup values_of join is_space
parse_keycloak_claims_exact_example =
    parse_keycloak_claims_exact claims "u1" "ada" (str "ada@idp") realm_roles
      (field "api" (obj client_fields) end) (client_roles ∷ []) ("openid" ∷ "runs" ∷ []) refl refl
      refl refl refl refl refl refl ((refl, refl), ((refl, refl), tt))

abbrev pub key_fields : Fields
key_fields = field "kid" (str "k1") end

pub kid_there : lookup "kid" key_fields ≡ some (str "k1")
unfolding lookup
kid_there = refl

abbrev pub first_key : Key
first_key = record { kid = some "k1"; fields = key_fields; kid_there = kid_there }

abbrev pub metadata : Fields
metadata = field "issuer" (str url) (field "jwks_uri" (str "http://idp/keys") end)

abbrev pub jwks : Fields
jwks = field "keys" (arr (cons (obj key_fields) nil)) end

abbrev pub header_of_token : Fields
header_of_token = field "kid" (str "k1") end

load_key_finds_last_example :
    (build_key_loader (obj jwks) >>= λ key_loader. key_loader header_of_token end)
    ≡ returned (obj key_fields)
unfolding lookup items_of or_raise
load_key_finds_last_example =
    load_key_finds_last jwks (cons (obj key_fields) nil) (first_key ∷ []) header_of_token end "k1"
      refl refl refl refl

-- authlib with one good token, one that has expired, and others whose signature is wrong.
unfoldable pub decode_sample : String → KeyLoader → ClaimsOptions → Outcome Fields
decode_sample token key_loader options =
    if str_eq token "good"
    then returned claims
    else if str_eq token "old"
    then raised (jose_error expired_token_error "")
    else raised (jose_error (other_jose_error "BadSignatureError") "")

abbrev pub sample : Libraries
sample = record {
  HttpResponse = Json;
  http_get = λ requested address.
      returned (if str_eq address "http://idp/keys" then obj jwks else obj metadata);
  raise_for_status = λ response. returned tt;
  response_json = returned;
  get_well_known_url = λ issuer. issuer ++ "/.well-known/openid-configuration";
  JwtClaims = Fields;
  decode = decode_sample;
  validate_claims = λ now decoded. returned tt;
  claims_dict = λ decoded. decoded;
  encode = λ payload key header. "fake";
  get_authorization_scheme_param = scheme_param;
  header = find_header;
  json_loads = λ text. none;
}

abbrev pub config : OpenIdConfiguration
config = record { realm_name = "r"; openid_discovery_url = url }

-- After the first request.
abbrev pub warm : JwtValidationClient
warm = record {
  metadata_cache = field url (obj metadata) end;
  jwks_cache = field "http://idp/keys" (obj jwks) end;
  requested = "http://idp/keys" ∷ "http://idp/realms/r/.well-known/openid-configuration" ∷ [];
}

pub good_authenticated :
    authenticate sample 3 "good" [] url new_validation_client ≡ (returned claims, warm)
unfolding authenticate decode_sample new_validation_client lookup store or_raise ◌>>=◌ Exec.◌>>=◌
    build_key_loader items_of subscript as_address as_dict elements add_keys add_key is_hashable
good_authenticated = refl

cached_documents_stay_example : (authenticate sample 5 "bad" [] url warm).1 ≡ warm
cached_documents_stay_example =
    cached_documents_stay sample 3 "good" [] url new_validation_client claims warm
      good_authenticated sample 5 "bad" []
