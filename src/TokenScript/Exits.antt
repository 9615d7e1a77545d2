-- ===== src/TokenScript/Exits.antt =====
-- What the script requests, and how it ends.
use Prim.Native.String.{◌++◌}
use python_agent_with_idp.Prelude.{
  String, ◌≡◌, ◌⊎◌, arith, inl, inr, refl, Bool, Bool-cases, true, false, if◌then◌else◌, Option,
  none, some, [], ◌∷◌, not,
}
use python_agent_with_idp.Texts.{is_empty}
use python_agent_with_idp.Error.{Exception, http_status_error, request_error, str_exception}
use python_agent_with_idp.Json.{Json, null, str, Fields, end, field}
use python_agent_with_idp.Json.Values.{truthy, lookup, get_or}
use python_agent_with_idp.Exec
use python_agent_with_idp.Exec.{Outcome, returned, raised, Exec, resume, lift}
use python_agent_with_idp.Exec.Results.{◌>>=◌, ◌>>◌}
use python_agent_with_idp.Authentication.Claims.{as_dict}
use python_agent_with_idp.TokenScript.{
  Host, Notice, complaint, token_details, http_error, connection_failed, other_error,
  no_access_token, Output, report, chosen, default_for, request_token, get_keycloak_token,
  refresh_keycloak_token, fetch_token_response, get_env_var, main,
}

-- The script has printed the token of the response, and nothing else to stdout.
abbrev pub Succeeds : Output → Fields → Type 0
Succeeds output token_response =
    (token : Json) × (lookup "access_token" token_response ≡ some token)
    × (truthy token ≡ true)
    × (output ≡ record {
      stdout = token ∷ [];
      stderr =
          token_details (get_or null (lookup "expires_in" token_response))
            (get_or null (lookup "token_type" token_response))
            (get_or null (lookup "scope" token_response))
          ∷ [];
      code = 0;
    })

-- It has printed nothing to stdout, and this to stderr.
abbrev pub FailsWith : Notice → Output → Type 0
FailsWith why output = output ≡ record { stdout = []; stderr = why ∷ []; code = 1 }

-- What it says of an exception: of an HTTP error its status and text, of a failed connection the
-- address, and of all others their text.
abbrev pub said_of : String → Exception → Notice
said_of url (http_status_error status text) = http_error status text
said_of url (request_error message) = connection_failed message url
said_of url exc = other_error (str_exception exc)

-- What the end of the script says of the outcome of its request.
abbrev pub Ends : String → Output → Outcome Fields → Type 0
Ends url output (returned token_response) =
    Succeeds output token_response
    ⊎ ((truthy (get_or null (lookup "access_token" token_response)) ≡ false)
        × FailsWith (no_access_token token_response) output)
Ends url output (raised exc) = FailsWith (said_of url exc) output

report_found :
    (url : String) (token_response : Fields) (found : Option Json)
    → lookup "access_token" token_response ≡ found
    → Ends url (report url (returned token_response)) (returned token_response)
unfolding report truthy
report_found url token_response none e = inr (rw e refl, rw e refl)
report_found url token_response (some token) e = elim (Bool-cases (truthy token)) [
  | inl full ↦ inl (token, e, full, rw (e, full) refl)
  | inr empty ↦ inr (rw e empty, rw (e, empty) refl)
]

complaint_lem : (url : String) (exc : Exception) → complaint url exc ≡ said_of url exc
unfolding complaint
complaint_lem url exc = ground arith

report-Ends : (url : String) (fetched : Outcome Fields) → Ends url (report url fetched) fetched
unfolding report
report-Ends url (returned token_response) =
    report_found url token_response (lookup "access_token" token_response) refl
report-Ends url (raised exc) = rw (complaint_lem url exc) refl

-- A refresh token is given.
abbrev pub wants_refresh : Option String → Bool
wants_refresh none = false
wants_refresh (some token) = not (is_empty token)

-- The value of a variable, or the default.
abbrev pub set_or : String → Option String → String
set_or default none = default
set_or default (some value) = value

set_or_lem :
    (default : String) (value : Option String) → default_for default value ≡ set_or default value
unfolding default_for
set_or_lem default none = refl
set_or_lem default (some value) = refl

abbrev pub token_of : Option String → String
token_of none = ""
token_of (some token) = token

-- The address and the form that the environment asks for.
module _ (host : Host) where
  abbrev pub base_url : String
  base_url = set_or "http://localhost:8082" (host.getenv "KEYCLOAK_URL")

  abbrev pub endpoint : String
  endpoint =
      base_url
      ++ ("/realms/"
          ++ (set_or "throttling-test" (host.getenv "KEYCLOAK_REALM")
              ++ "/protocol/openid-connect/token"))

  abbrev client_fields : Fields → Fields
  client_fields rest =
      field "client_id" (str (set_or "throttling-api" (host.getenv "KEYCLOAK_CLIENT_ID"))) (
        field "client_secret"
          (str (set_or "test-client-secret" (host.getenv "KEYCLOAK_CLIENT_SECRET"))) rest)

  abbrev pub form_for : Option String → Fields
  form_for given =
      if wants_refresh given
      then field "grant_type" (str "refresh_token")
          (client_fields (field "refresh_token" (str (token_of given)) end))
      else field "grant_type" (str "password") (
          client_fields (
            field "username" (str (set_or "test-user" (host.getenv "KEYCLOAK_USERNAME"))) (
              field "password" (str (set_or "test-password" (host.getenv "KEYCLOAK_PASSWORD")))
                end)))

  -- What one request gives.
  abbrev pub answer_to : String → Fields → Outcome Fields
  answer_to url form =
      (host.post [] url form >>= λ response.
      (host.raise_for_status response >> host.response_json response))
      >>= as_dict

resume_lift :
    {A B S : Type 0} (r : Outcome A) (m : A → Exec S B) (f : A → Outcome B) (s : S)
    → ((a : A) → m a s ≡ (f a, s))
    → resume r m s ≡ (r >>= f, s)
unfolding ◌>>=◌
resume_lift (returned a) m f s h = h a
resume_lift (raised exc) m f s h = refl

module _ (host : Host) where
  request_token_lem :
      (url : String) (form : Fields)
      → request_token host url form [] ≡ (
        host.post [] url form >>= λ response.
            (host.raise_for_status response >> host.response_json response),
        (url, form) ∷ [],
      )
  unfolding request_token Exec.◌>>=◌
  request_token_lem url form =
      resume_lift (host.post [] url form) _ _ ((url, form) ∷ []) (λ response.
        resume_lift (host.raise_for_status response) _ _ ((url, form) ∷ []) (λ done. refl))

  asked_once :
      (url : String) (form : Fields)
      → (let (r, s) = request_token host url form [] in resume r (λ json. lift (as_dict json)) s)
        ≡ (answer_to host url form, (url, form) ∷ [])
  unfolding Exec.◌>>=◌
  asked_once url form =
      rw (request_token_lem url form) (resume_lift _ _ as_dict ((url, form) ∷ []) (λ json. refl))

  fetched_by :
      (given : Option String)
      → host.getenv "KEYCLOAK_REFRESH_TOKEN" ≡ given
      → fetch_token_response host [] ≡ (
        answer_to host (endpoint host) (form_for host given),
        (endpoint host, form_for host given) ∷ [],
      )
  unfolding fetch_token_response get_keycloak_token refresh_keycloak_token chosen get_env_var
      Exec.◌>>=◌
  fetched_by none e = rw e (simp (set_or_lem) (asked_once _ _))
  fetched_by (some token) e = elim (Bool-cases (is_empty token)) [
    | inl empty ↦ rw (e, empty) (simp (set_or_lem) (asked_once _ _))
    | inr full ↦ rw (e, full) (simp (set_or_lem) (asked_once _ _))
  ]

  -- Whatever the environment and whatever httpx answers, `main` sends exactly one request: to
  -- the token endpoint under KEYCLOAK_URL and of KEYCLOAK_REALM, with the form of the grant
  -- refresh_token where KEYCLOAK_REFRESH_TOKEN is set and not empty and of the grant password
  -- otherwise, and with the default of each variable that is not set. Where the answer passes
  -- `raise_for_status` and is a dictionary with an access token that counts as true, only the
  -- token is printed to stdout, its details to stderr, and the code is 0. In all other cases
  -- nothing is printed to stdout, the code is 1, and one notice is printed to stderr: the
  -- response without a token, or of an exception the status and text of an HTTP error, the
  -- address for a failed connection, and the text of any other one.
  pub main-Ends :
      let form = form_for host (host.getenv "KEYCLOAK_REFRESH_TOKEN") in
      ((main host []).1 ≡ (endpoint host, form) ∷ [])
      × Ends (base_url host) (main host []).0 (answer_to host (endpoint host) form)
  unfolding main get_env_var
  main-Ends =
      let fetched = fetched_by (host.getenv "KEYCLOAK_REFRESH_TOKEN") refl in
      let url = set_or_lem "http://localhost:8082" (host.getenv "KEYCLOAK_URL") in
      rw (fetched, url) (refl, report-Ends (base_url host) _)
