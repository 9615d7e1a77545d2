-- ===== src/Authentication/Keys.antt =====
-- _build_key_loader of llm_agent/llm_agent/infrastructure/authentication/jwt_validator.py. The document of the
-- keys comes from the network, so that each part of it may be any value.
pub mod Known
use python_agent_with_idp.Prelude.{
  ℕ, String, str_eq, ◌==◌, Bool, true, false, not, ◌||◌, if◌then◌else◌, Option, none, some, List,
  [], ◌∷◌,
}
use python_agent_with_idp.Texts.{contains_text}
use python_agent_with_idp.Json.{Json, null, bool, num, str, arr, obj, Fields, nil}
use python_agent_with_idp.Json.Values.{truthy, lookup, get_or, items_of, elements, has_text}
use python_agent_with_idp.Error.{type_error, authentication_error}
use python_agent_with_idp.Exec.{Outcome, returned, raised}
use python_agent_with_idp.Exec.Results.{◌>>=◌, or_raise}
use python_agent_with_idp.Authentication.{KeyLoader}
use python_agent_with_idp.Authentication.Claims.{as_dict}

-- A value that may be a key of a dictionary.
unfoldable pub is_hashable : Json → Bool
is_hashable (arr xs) = false
is_hashable (obj fs) = false
is_hashable _ = true

abbrev as_number : Bool → ℕ
as_number true = 1
as_number false = 0

-- a == b, of values that may be keys: True is 1, and False is 0.
unfoldable pub same_key : Json → Json → Bool
same_key null null = true
same_key (str s) (str t) = str_eq s t
same_key (num m) (num n) = m == n
same_key (bool b) (num n) = as_number b == n
same_key (num m) (bool c) = m == as_number c
same_key (bool b) (bool c) = as_number b == as_number c
same_key _ _ = false

abbrev pub KeysByKid : Type 0
KeysByKid = List (Json × Json)

-- keys[kid] = key
unfoldable pub put_key : Json → Json → KeysByKid → KeysByKid
put_key kid key [] = (kid, key) ∷ []
put_key kid key ((k, v) ∷ keys) =
    if same_key k kid then (k, key) ∷ keys else (k, v) ∷ put_key kid key keys

-- keys.get(kid)
unfoldable pub find_key : Json → KeysByKid → Option Json
find_key kid [] = none
find_key kid ((k, v) ∷ keys) = if same_key k kid then some v else find_key kid keys

-- What the index ["kid"] does with a value that is no dictionary and in which "kid" was found.
abbrev no_index : KeysByKid → Bool → Outcome KeysByKid
no_index keys found =
    if found then raised (type_error "indices must be integers") else returned keys

-- The entry of one key: if "kid" in key, then key["kid"]: key
unfoldable pub add_key : KeysByKid → Json → Outcome KeysByKid
add_key keys (obj key) = elim (lookup "kid" key) [
  | none ↦ returned keys
  | some kid ↦
      if is_hashable kid
      then returned (put_key kid (obj key) keys)
      else raised (type_error "unhashable type")
]
add_key keys (str s) = no_index keys (contains_text s "kid")
add_key keys (arr xs) = no_index keys (has_text "kid" (items_of xs))
add_key keys _ = raised (type_error "argument is not iterable")

unfoldable pub add_keys : KeysByKid → List Json → Outcome KeysByKid
add_keys keys [] = returned keys
add_keys keys (key ∷ rest) = do keys' ← add_key keys key; add_keys keys' rest

unfoldable pub keys_by_kid : Json → Outcome KeysByKid
keys_by_kid jwks = do
  document ← as_dict jwks
  keys ←
      or_raise (type_error "object is not iterable")
        (elements (get_or (arr nil) (lookup "keys" document)))
  add_keys [] keys

-- The message of the exception shows the key id too.
unfoldable pub load_key : KeysByKid → KeyLoader
load_key keys header payload =
    let kid = get_or null (lookup "kid" header) in
    if truthy kid
    then if is_hashable kid
      then or_raise (authentication_error "Unknown key id") (find_key kid keys)
      else raised (type_error "unhashable type")
    else raised (authentication_error "Unknown key id")

unfoldable pub build_key_loader : Json → Outcome KeyLoader
unfolding keys_by_kid load_key
build_key_loader jwks = do keys ← keys_by_kid jwks; returned (load_key keys)
