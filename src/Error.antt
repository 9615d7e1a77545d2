-- ===== src/Error.antt =====
-- The exceptions that the modelled code raises, one constructor for each `raise` or failing
-- expression, and `str` of them: llm_agent/llm_agent/domain/agent/runs/exception.py,
-- llm_agent/agent_run_worker/domain/exception.py,
-- llm_agent/llm_agent/domain/authentication/exceptions.py, those of the token extractors, the
-- built-in ones and those of authlib, httpx and svcs.
use Prim.Native.String.{◌++◌}
use python_agent_with_idp.Prelude.{
  ℕ, zero, suc, ◌/◌, ◌%◌, ◌^◌, String, ◌≡◌, refl, ◌==◌, if◌then◌else◌, Bool, true, false,
}
use python_agent_with_idp.Run.Code.{RunStatusCode, running, succeeded, name}
use python_agent_with_idp.Run.Status.{Uuid}

-- The exceptions of authlib that the code names, and its others.
pub data JoseError : Type 0 where
  decode_error : JoseError
  invalid_claim_error : JoseError
  expired_token_error : JoseError
  invalid_token_error : JoseError
  other_jose_error : String → JoseError

pub data Exception : Type 0 where
  run_not_found : Uuid → Exception
  run_lease_lost : Uuid → String → Exception
  stream_not_found : Uuid → Exception
  unknown_run_status : RunStatusCode → Exception
  invalid_transition : RunStatusCode → RunStatusCode → Exception
  key_error : Uuid → Exception
  none_plus_int : Exception
  missing_key : String → Exception
  attribute_error : String → Exception
  type_error : String → Exception
  permission_error : String → Exception
  authentication_error : String → Exception
  invalid_header_error : String → Exception
  invalid_websocket_auth : String → Exception
  jose_error : JoseError → String → Exception
  http_status_error : ℕ → String → Exception
  request_error : String → Exception
  service_not_found : String → Exception
  other : String → Exception

-- isinstance(exc, ValueError)
unfoldable pub is_value_error : Exception → Bool
is_value_error (stream_not_found run_id) = true
is_value_error (unknown_run_status code) = true
is_value_error (invalid_transition from to) = true
is_value_error _ = false

hex_digit : ℕ → String
hex_digit n =
    if n == 0
    then "0"
    else if n == 1
    then "1"
    else if n == 2
    then "2"
    else if n == 3
    then "3"
    else if n == 4
    then "4"
    else if n == 5
    then "5"
    else if n == 6
    then "6"
    else if n == 7
    then "7"
    else if n == 8
    then "8"
    else if n == 9
    then "9"
    else if n == 10
    then "a"
    else if n == 11
    then "b"
    else if n == 12
    then "c"
    else if n == 13
    then "d"
    else if n == 14
    then "e"
    else "f"

-- the last `width` hexadecimal digits of a number
hex : ℕ → ℕ → String
unfolding hex_digit
hex zero n = ""
hex (suc width) n = hex width (n / 16) ++ hex_digit (n % 16)

-- str(uuid): 8-4-4-4-12 hexadecimal digits
unfoldable pub str_uuid : Uuid → String
unfolding hex
str_uuid u =
    hex 8 (u / 2 ^ 96)
    ++ "-"
    ++ hex 4 (u / 2 ^ 80)
    ++ "-"
    ++ hex 4 (u / 2 ^ 64)
    ++ "-"
    ++ hex 4 (u / 2 ^ 48)
    ++ "-"
    ++ hex 12 u

-- str(exc)
unfoldable pub str_exception : Exception → String
unfolding str_uuid name
str_exception (run_not_found run_id) = "Run " ++ str_uuid run_id ++ " not found"
str_exception (run_lease_lost run_id worker_id) =
    "Run " ++ str_uuid run_id ++ " is not claimed by " ++ worker_id
str_exception (stream_not_found run_id) = "Run " ++ str_uuid run_id ++ " not found"
str_exception (unknown_run_status code) = "Unknown run status: RunStatusCode." ++ name code
str_exception (invalid_transition from to) =
    "Invalid transition: RunStatusCode." ++ name from ++ " -> RunStatusCode." ++ name to
str_exception (key_error run_id) = "UUID('" ++ str_uuid run_id ++ "')"
str_exception none_plus_int = "unsupported operand type(s) for +: 'NoneType' and 'int'"
str_exception (missing_key k) = "'" ++ k ++ "'"
str_exception (attribute_error message) = message
str_exception (type_error message) = message
str_exception (permission_error message) = message
str_exception (authentication_error message) = message
str_exception (invalid_header_error message) = message
str_exception (invalid_websocket_auth message) = message
str_exception (jose_error kind message) = message
str_exception (http_status_error status message) = message
str_exception (request_error message) = message
str_exception (service_not_found name) = name
str_exception (other message) = message

str_uuid_example :
    str_uuid 0x123e4567e89b12d3a456426614174000 ≡ "123e4567-e89b-12d3-a456-426614174000"
unfolding str_uuid
str_uuid_example = refl

str_exception_example :
    str_exception (invalid_transition succeeded running)
    ≡ "Invalid transition: RunStatusCode.SUCCEEDED -> RunStatusCode.RUNNING"
unfolding str_exception
str_exception_example = refl
