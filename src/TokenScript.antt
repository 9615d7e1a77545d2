-- ===== src/TokenScript.antt =====
-- testing_payloads/get_keycloak_token.py: the script that fetches an access token. The environment
-- and httpx are parameters.
pub mod Exits
use Prim.Native.String.{◌++◌}
use python_agent_with_idp.Prelude.{
  ℕ, String, Bool, true, false, if◌then◌else◌, Option, none, some, List, [], ◌∷◌,
}
use python_agent_with_idp.Texts.{is_empty}
use python_agent_with_idp.Json.{Json, null, str, Fields, end, field}
use python_agent_with_idp.Json.Values.{truthy, lookup, get_or}
use python_agent_with_idp.Error.{Exception, http_status_error, request_error, str_exception}
use python_agent_with_idp.Exec.{Outcome, returned, raised, Done, Exec, lift, ◌>>=◌, ◌>>◌}
use python_agent_with_idp.Authentication.Claims.{as_dict}

-- The requests that have been sent, the last one first: the address and the form of each.
abbrev pub Requests : Type 0
Requests = List (String × Fields)

-- os.getenv(key), and httpx: a POST of a form, whose response may depend on what was sent before,
-- `raise_for_status` and `json`.
pub record Host : Type 1 where
  pub getenv : String → Option String
  pub HttpResponse : Type 0
  pub post : Requests → String → Fields → Outcome HttpResponse
  pub raise_for_status : HttpResponse → Outcome Done
  pub response_json : HttpResponse → Outcome Json

-- The two forms.
abbrev pub password_form : String → String → String → String → Fields
password_form client_id client_secret username password = field "grant_type" (str "password") (
    field "client_id" (str client_id) (
      field "client_secret" (str client_secret)
        (field "username" (str username) (field "password" (str password) end))))

abbrev pub refresh_form : String → String → String → Fields
refresh_form client_id client_secret refresh_token = field "grant_type" (str "refresh_token") (
    field "client_id" (str client_id)
      (field "client_secret" (str client_secret) (field "refresh_token" (str refresh_token) end)))

-- What is printed to stderr. The details of a token are its expires_in, token_type and scope, null
-- for None.
pub data Notice : Type 0 where
  token_details : Json → Json → Json → Notice
  http_error : ℕ → String → Notice
  connection_failed : String → String → Notice
  other_error : String → Notice
  no_access_token : Fields → Notice

-- What the process leaves: the values printed to stdout, what is printed to stderr, and the exit code.
pub record Output : Type 0 where
  pub stdout : List Json
  pub stderr : List Notice
  pub code : ℕ

-- os.getenv(key, default)
unfoldable pub default_for : String → Option String → String
default_for default none = default
default_for default (some value) = value

abbrev pub token_url : String → String → String
token_url keycloak_url realm =
    keycloak_url ++ ("/realms/" ++ (realm ++ "/protocol/openid-connect/token"))

-- The `except` clauses of `main`.
unfoldable pub complaint : String → Exception → Notice
complaint keycloak_url (http_status_error status text) = http_error status text
complaint keycloak_url (request_error message) = connection_failed message keycloak_url
complaint keycloak_url exc = other_error (str_exception exc)

-- What `main` does with the response, or with the exception of the request.
unfoldable pub report : String → Outcome Fields → Output
unfolding complaint
report keycloak_url (raised exc) = record {
  stdout = [];
  stderr = complaint keycloak_url exc ∷ [];
  code = 1;
}
report keycloak_url (returned token_response) =
    let access_token = get_or null (lookup "access_token" token_response) in
    if truthy access_token
    then record {
      stdout = access_token ∷ [];
      stderr =
          token_details (get_or null (lookup "expires_in" token_response))
            (get_or null (lookup "token_type" token_response))
            (get_or null (lookup "scope" token_response))
          ∷ [];
      code = 0;
    }
    else record { stdout = []; stderr = no_access_token token_response ∷ []; code = 1 }

-- if refresh_token: ...
unfoldable pub chosen : {A : Type 0} → Option String → (String → A) → A → A
chosen none refresh password = password
chosen (some refresh_token) refresh password =
    if is_empty refresh_token then password else refresh refresh_token

module _ (host : Host) where
  unfoldable pub get_env_var : String → String → String
  unfolding default_for
  get_env_var key default = default_for default (host.getenv key)

  -- client.post(...)
  abbrev pub post : String → Fields → Exec Requests host.HttpResponse
  post url form requests = (host.post requests url form, (url, form) ∷ requests)

  -- client.post(...), response.raise_for_status(), response.json()
  unfoldable pub request_token : String → Fields → Exec Requests Json
  request_token url form = do
    response ← post url form
    lift (host.raise_for_status response)
    lift (host.response_json response)

  unfoldable pub get_keycloak_token :
      String → String → String → String → String → String → Exec Requests Json
  unfolding request_token
  get_keycloak_token keycloak_url realm client_id client_secret username password =
      request_token (token_url keycloak_url realm)
        (password_form client_id client_secret username password)

  unfoldable pub refresh_keycloak_token :
      String → String → String → String → String → Exec Requests Json
  unfolding request_token
  refresh_keycloak_token keycloak_url realm client_id client_secret refresh_token =
      request_token (token_url keycloak_url realm)
        (refresh_form client_id client_secret refresh_token)

  abbrev pub keycloak_url_var : String
  keycloak_url_var = get_env_var "KEYCLOAK_URL" "http://localhost:8082"

  -- The request of the try statement; the response is used as a dictionary.
  unfoldable pub fetch_token_response : Exec Requests Fields
  unfolding get_env_var get_keycloak_token refresh_keycloak_token chosen as_dict
  fetch_token_response = do
    let realm = get_env_var "KEYCLOAK_REALM" "throttling-test"
    let client_id = get_env_var "KEYCLOAK_CLIENT_ID" "throttling-api"
    let client_secret = get_env_var "KEYCLOAK_CLIENT_SECRET" "test-client-secret"
    token_response ←
        chosen (host.getenv "KEYCLOAK_REFRESH_TOKEN")
          (refresh_keycloak_token keycloak_url_var realm client_id client_secret)
          (get_keycloak_token keycloak_url_var realm client_id client_secret
            (get_env_var "KEYCLOAK_USERNAME" "test-user")
            (get_env_var "KEYCLOAK_PASSWORD" "test-password"))
    lift (as_dict token_response)

  unfoldable pub main : Requests → Output × Requests
  unfolding get_env_var fetch_token_response report
  main requests =
      let (fetched, requests') = fetch_token_response requests in
      (report keycloak_url_var fetched, requests')
