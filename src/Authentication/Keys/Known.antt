-- ===== src/Authentication/Keys/Known.antt =====
-- Which key the loader gives for a key id.
use python_agent_with_idp.Prelude.{
  String, str_eq, eq_iff, ◌≡◌, refl, ap, ◌∙◌, Bool, false, if◌then◌else◌, Option, none, some, List,
  [], ◌∷◌, map, arith,
}
use python_agent_with_idp.Texts.{is_empty}
use python_agent_with_idp.Json.{Json, null, bool, num, str, arr, obj, Items, Fields}
use python_agent_with_idp.Json.Values.{truthy, lookup, items_of, elements}
use python_agent_with_idp.Error.{authentication_error}
use python_agent_with_idp.Exec.{returned}
use python_agent_with_idp.Exec.Results.{◌>>=◌, or_raise}
use python_agent_with_idp.Authentication.Claims.{as_dict}
use python_agent_with_idp.Authentication.Keys.{
  same_key, is_hashable, KeysByKid, put_key, find_key, add_key, add_keys, load_key,
  build_key_loader,
}

abbrev pub text_value : Option String → Option Json
text_value none = none
text_value (some kid) = some (str kid)

-- A key with a text for its id, or without an id.
pub record Key : Type 0 where
  pub kid : Option String
  pub fields : Fields
  pub kid_there : lookup "kid" fields ≡ text_value kid

abbrev pub is_id : String → Option String → Bool
is_id kid none = false
is_id kid (some k) = str_eq k kid

-- The last one with this id, or `before`.
abbrev pub last_with : String → Option Json → List Key → Option Json
last_with kid before [] = before
last_with kid before (key ∷ keys) =
    last_with kid (if is_id kid key.kid then some (obj key.fields) else before) keys

find_key-put_key :
    (j k : String) (v : Json) (keys : KeysByKid)
    → find_key (str j) (put_key (str k) v keys)
      ≡ (if str_eq k j then some v else find_key (str j) keys)
unfolding find_key put_key same_key
find_key-put_key j k v [] = refl
find_key-put_key j k v ((null, w) ∷ keys) = find_key-put_key j k v keys
find_key-put_key j k v ((bool b, w) ∷ keys) = find_key-put_key j k v keys
find_key-put_key j k v ((num n, w) ∷ keys) = find_key-put_key j k v keys
find_key-put_key j k v ((arr xs, w) ∷ keys) = find_key-put_key j k v keys
find_key-put_key j k v ((obj fs, w) ∷ keys) = find_key-put_key j k v keys
find_key-put_key j k v ((str t, w) ∷ keys) =
    ground (arith, eq_iff t k, eq_iff t j, eq_iff k j, find_key-put_key j k v keys)

abbrev with_key : KeysByKid → Fields → Option String → KeysByKid
with_key keys fields none = keys
with_key keys fields (some kid) = put_key (str kid) (obj fields) keys

add_key_lem :
    (keys : KeysByKid) (fields : Fields) (kid : Option String)
    → lookup "kid" fields ≡ text_value kid
    → add_key keys (obj fields) ≡ returned (with_key keys fields kid)
unfolding add_key is_hashable
add_key_lem keys fields none e = rw (e, add_key) refl
add_key_lem keys fields (some kid) e = rw (e, add_key) refl

find_key-with_key :
    (j : String) (keys : KeysByKid) (fields : Fields) (kid : Option String)
    → find_key (str j) (with_key keys fields kid)
      ≡ (if is_id j kid then some (obj fields) else find_key (str j) keys)
find_key-with_key j keys fields none = refl
find_key-with_key j keys fields (some kid) = find_key-put_key j kid (obj fields) keys

add_keys_lem :
    (j : String) (keys : KeysByKid) (added : List Key)
    → (found : KeysByKid) × (add_keys keys (map (λ key. obj key.fields) added) ≡ returned found)
      × (find_key (str j) found ≡ last_with j (find_key (str j) keys) added)
unfolding add_keys ◌>>=◌
add_keys_lem j keys [] = (keys, refl, refl)
add_keys_lem j keys (key ∷ added) =
    let (found, e, last) = add_keys_lem j (with_key keys key.fields key.kid) added in
    (
      found,
      rw (add_key_lem keys key.fields key.kid key.kid_there) e,
      last ∙ ap (λ o. last_with j o added) (find_key-with_key j keys key.fields key.kid),
    )

module _ (document : Fields) (items : Items) (keys : List Key) (header payload : Fields)
    (kid : String) where
  -- For a document whose keys are dictionaries, each with a text for its id or without one, the
  -- key loader gives for the id of a token, a text that is not empty, the last key with this
  -- id, and raises AuthenticationError if there is none.
  pub load_key_finds_last :
      lookup "keys" document ≡ some (arr items)
      → items_of items ≡ map (λ key. obj key.fields) keys
      → lookup "kid" header ≡ some (str kid)
      → is_empty kid ≡ false
      → (build_key_loader (obj document) >>= λ key_loader. key_loader header payload)
        ≡ or_raise (authentication_error "Unknown key id") (last_with kid none keys)
  unfolding build_key_loader as_dict elements or_raise ◌>>=◌ load_key truthy is_hashable find_key
  load_key_finds_last listed all_keys named full =
      let (found, e, last) = add_keys_lem kid [] keys in
      rw (listed, all_keys, e, named, full, last) refl
