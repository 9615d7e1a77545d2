-- ===== src/Examples/Scripts.antt =====
-- The token script with an identity provider that refuses, and in an empty environment.
use python_agent_with_idp.Prelude.{String, ◌≡◌, none, [], ◌∷◌}
use python_agent_with_idp.Json.{null}
use python_agent_with_idp.Exec.{returned, raised}
use python_agent_with_idp.Error.{http_status_error}
use python_agent_with_idp.TokenScript.{Host, main}
use python_agent_with_idp.TokenScript.Exits.{
  base_url, endpoint, form_for, answer_to, Ends, main-Ends,
}

abbrev refusing : Host
refusing = record {
  getenv = λ key. none;
  HttpResponse = String;
  post = λ requests url form. returned url;
  raise_for_status = λ response. raised (http_status_error 401 "invalid_grant");
  response_json = λ response. returned null;
}

main-Ends_example :
    let form = form_for refusing none in
    ((main refusing []).1 ≡ (endpoint refusing, form) ∷ [])
    × Ends (base_url refusing) (main refusing []).0 (answer_to refusing (endpoint refusing) form)
main-Ends_example = main-Ends refusing
