-- ===== src/Request.antt =====
-- llm_agent/llm_agent/domain/agent/runs/transition_request.py
use python_agent_with_idp.Prelude.{ℕ, String, Option}
use python_agent_with_idp.Json.{Fields}
use python_agent_with_idp.Run.Status.{Timestamp}

-- A value, or UNSET_FIELD: that a field is absent differs from its being `None`.
pub data Field {ℓ} (A : Type ℓ) : Type ℓ where
  unset : Field A
  given : A → Field A

pub record TransitionRequestParams : Type 0 where
  pub result : Field (Option Fields)
  pub error : Field (Option String)
  pub worker_id : Field (Option String)
  pub retry_count : Field (Option ℕ)
  pub expiration_unix_ts : Field (Option Timestamp)

-- TransitionRequestParams()
abbrev pub no_params : TransitionRequestParams
no_params = record {
  result = unset;
  error = unset;
  worker_id = unset;
  retry_count = unset;
  expiration_unix_ts = unset;
}

unfoldable pub get_value_or_fallback {ℓ} : {A : Type ℓ} → Field A → A → A
get_value_or_fallback unset run_status_value = run_status_value
get_value_or_fallback (given transition_request_value) run_status_value = transition_request_value
