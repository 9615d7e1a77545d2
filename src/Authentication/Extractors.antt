-- ===== src/Authentication/Extractors.antt =====
-- llm_agent/llm_agent/infrastructure/execution_context/token_extractors.py.
pub mod Extracted
use Prim.Native.String.{◌++◌}
use python_agent_with_idp.Prelude.{
  String, str_eq, Bool, true, false, not, if◌then◌else◌, Option, none, some, List,
}
use python_agent_with_idp.Texts.{is_empty, lower_is}
use python_agent_with_idp.Json.{Json, null, str, obj, Fields, end}
use python_agent_with_idp.Json.Values.{lookup, get_or, is_text}
use python_agent_with_idp.Error.{Exception, invalid_header_error, invalid_websocket_auth}
use python_agent_with_idp.Exec.{Outcome, returned, raised}
use python_agent_with_idp.Exec.Results.{◌>>=◌}
use python_agent_with_idp.Authentication.{Libraries, Headers}
use python_agent_with_idp.Authentication.Claims.{as_dict}

-- An ASGI message: its type and, for a message of a websocket, its text.
pub record Message : Type 0 where
  pub message_type : Option String
  pub text : Option String

-- except InvalidHeaderError: return None
unfoldable pub none_on_invalid_header : Outcome String → Outcome (Option String)
none_on_invalid_header (returned token) = returned (some token)
none_on_invalid_header (raised (invalid_header_error message)) = returned none
none_on_invalid_header (raised exc) = raised exc

-- except InvalidWebsocketAuthException: return None
unfoldable pub none_on_invalid_auth : Outcome (Option String) → Outcome (Option String)
none_on_invalid_auth (returned token) = returned token
none_on_invalid_auth (raised (invalid_websocket_auth message)) = returned none
none_on_invalid_auth (raised exc) = raised exc

-- The tests of the scheme of an HTTP header.
unfoldable pub bearer_token : String × String → Outcome String
bearer_token (scheme, token) =
    if is_empty scheme
    then raised (invalid_header_error "Malformed Authorization header")
    else if lower_is scheme "bearer"
    then returned token
    else raised (invalid_header_error ("Unsupported scheme: " ++ scheme))

-- The test of the scheme of a connection_init message.
unfoldable pub websocket_bearer_token : String × String → Outcome (Option String)
websocket_bearer_token (scheme, token) =
    if lower_is scheme "bearer"
    then returned (some token)
    else raised (invalid_websocket_auth ("Unsupported scheme: " ++ scheme))

module _ (libs : Libraries) where
  -- HttpTokenExtractor.extract, of the header's value
  unfoldable pub extract_header : Option String → Outcome String
  unfolding bearer_token
  extract_header none = raised (invalid_header_error "Authorization header not found")
  extract_header (some auth_header) =
      if is_empty auth_header
      then raised (invalid_header_error "Authorization header not found")
      else (do parts ← libs.get_authorization_scheme_param (str auth_header); bearer_token parts)

  -- HttpTokenExtractor.extract
  unfoldable pub extract : Headers → Outcome String
  unfolding extract_header
  extract headers = extract_header (libs.header headers "Authorization")

  -- HttpTokenExtractor.extract_safe
  unfoldable pub http_extract_safe : Headers → Outcome (Option String)
  unfolding extract none_on_invalid_header
  http_extract_safe headers = none_on_invalid_header (extract headers)

  -- parsed_data.get("payload", {}).get("authorization"), and its scheme and token
  unfoldable pub authorization_of : Fields → Outcome (Option String)
  unfolding as_dict websocket_bearer_token
  authorization_of parsed_data = do
    payload ← as_dict (get_or (obj end) (lookup "payload" parsed_data))
    parts ← libs.get_authorization_scheme_param (get_or null (lookup "authorization" payload))
    websocket_bearer_token parts

  -- What follows `json.loads`.
  unfoldable pub extract_from_value : Json → Outcome (Option String)
  unfolding as_dict authorization_of
  extract_from_value value = do
    parsed_data ← as_dict value
    if is_text "connection_init" (get_or null (lookup "type" parsed_data))
        then authorization_of parsed_data
        else returned none

  -- The part of a message's text.
  unfoldable pub extract_from_text : Option String → Outcome (Option String)
  unfolding extract_from_value
  extract_from_text none = returned none
  extract_from_text (some raw_text) =
      if is_empty raw_text then returned none else elim (libs.json_loads raw_text) [
        | none ↦ returned none
        | some parsed_data ↦ extract_from_value parsed_data
      ]

  -- message.get("type") != "websocket.receive", negated
  abbrev is_received : Option String → Bool
  is_received none = false
  is_received (some message_type) = str_eq message_type "websocket.receive"

  -- WebSocketTokenExtractor.extract_from_message
  unfoldable pub extract_from_message : Message → Outcome (Option String)
  unfolding extract_from_text
  extract_from_message message =
      if is_received message.message_type then extract_from_text message.text else returned none

  -- WebSocketTokenExtractor.extract_safe
  unfoldable pub websocket_extract_safe : Message → Outcome (Option String)
  unfolding extract_from_message none_on_invalid_auth
  websocket_extract_safe message = none_on_invalid_auth (extract_from_message message)
