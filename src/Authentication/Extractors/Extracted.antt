-- ===== src/Authentication/Extractors/Extracted.antt =====
-- What the extractor for websockets makes of a message.
use python_agent_with_idp.Prelude.{
  String, ◌≡◌, refl, ◌∙◌, Bool-cases, inl, inr, false, if◌then◌else◌, none, some,
}
use python_agent_with_idp.Texts.{is_empty, lower_is}
use python_agent_with_idp.Json.{Json, null, str, obj, Fields}
use python_agent_with_idp.Json.Values.{lookup, get_or, is_text}
use python_agent_with_idp.Exec.{returned}
use python_agent_with_idp.Exec.Results.{◌>>=◌}
use python_agent_with_idp.Authentication.{Libraries}
use python_agent_with_idp.Authentication.Claims.{as_dict}
use python_agent_with_idp.Authentication.Extractors.{
  Message, none_on_invalid_auth, websocket_bearer_token, authorization_of, extract_from_value,
  extract_from_text, extract_from_message, websocket_extract_safe,
}

-- A message of a websocket whose text is the JSON of a value.
pub record Carries (libs : Libraries) (message : Message) (value : Json) : Type 0 where
  pub is_receive : message.message_type ≡ some "websocket.receive"
  pub raw_text : String
  pub text_there : message.text ≡ some raw_text
  pub text_full : is_empty raw_text ≡ false
  pub parsed : libs.json_loads raw_text ≡ some value

-- A connection_init message with the dictionary `payload`.
pub record IsInit (parsed_data payload : Fields) : Type 0 where
  pub type_there : lookup "type" parsed_data ≡ some (str "connection_init")
  pub payload_there : lookup "payload" parsed_data ≡ some (obj payload)

module _ (libs : Libraries) (message : Message) (value : Json)
    (carries : Carries libs message value) where
  extract_carried :
      websocket_extract_safe libs message ≡ none_on_invalid_auth (extract_from_value libs value)
  unfolding websocket_extract_safe extract_from_message extract_from_text
  extract_carried =
      rw
        (
          carries.is_receive, carries.text_there, carries.text_full, carries.parsed,
          extract_from_text,
        )
        refl

bearer_or_none :
    (scheme token : String)
    → none_on_invalid_auth (websocket_bearer_token (scheme, token))
      ≡ returned (if lower_is scheme "bearer" then some token else none)
unfolding none_on_invalid_auth websocket_bearer_token
bearer_or_none scheme token = elim (Bool-cases (lower_is scheme "bearer")) [
  | inl bearer ↦ rw bearer refl
  | inr other ↦ rw other refl
]

module _ (libs : Libraries) (message : Message) (parsed_data payload : Fields)
    (carries : Carries libs message (obj parsed_data)) (init : IsInit parsed_data payload)
    (scheme token : String) where
  -- The token of the first message of a websocket.
  pub connection_init_token :
      libs.get_authorization_scheme_param (get_or null (lookup "authorization" payload))
        ≡ returned (scheme, token)
      → websocket_extract_safe libs message
        ≡ returned (if lower_is scheme "bearer" then some token else none)
  unfolding extract_from_value authorization_of as_dict is_text ◌>>=◌
  connection_init_token parts =
      extract_carried libs message (obj parsed_data) carries
      ∙ rw (init.type_there, init.payload_there, parts) (bearer_or_none scheme token)

-- No token is found in a connection_init message whose payload has no key "authorization", such
-- as the message that the docstring of the extractor shows, with the key "Authorization": the
-- result is none, if FastAPI splits a missing header into two empty texts.
pub documented_message_gives_none :
    (libs : Libraries) (message : Message) (parsed_data payload : Fields)
    → Carries libs message (obj parsed_data)
    → IsInit parsed_data payload
    → lookup "authorization" payload ≡ none
    → libs.get_authorization_scheme_param null ≡ returned ("", "")
    → websocket_extract_safe libs message ≡ returned none
unfolding lower_is
documented_message_gives_none libs message parsed_data payload carries init missing nothing =
    connection_init_token libs message parsed_data payload carries init "" "" (rw missing nothing)
