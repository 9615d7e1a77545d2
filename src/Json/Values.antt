-- ===== src/Json/Values.antt =====
-- Python's operations on the values that come from JSON: truth, iteration, membership and the
-- methods of `dict`.
pub mod Laws
use Prim.Native.Char.{Char}
use python_agent_with_idp.Prelude.{
  ℕ, zero, suc, String, str_eq, ◌==◌, Bool, true, false, not, if◌then◌else◌, Option, none, some,
  List, [], ◌∷◌,
}
use python_agent_with_idp.Texts.{is_empty}
use python_agent_with_idp.Json.{
  Json, null, bool, num, str, arr, obj, Items, nil, cons, Fields, end, field,
}

-- bool(value)
unfoldable pub truthy : Json → Bool
truthy null = false
truthy (bool b) = b
truthy (num n) = not (n == 0)
truthy (str s) = not (is_empty s)
truthy (arr nil) = false
truthy (arr (cons x xs)) = true
truthy (obj end) = false
truthy (obj (field k v fs)) = true

-- a or b
unfoldable pub or_else : Json → Json → Json
or_else a b = if truthy a then a else b

-- d.get(k), none where the key is missing
unfoldable pub lookup : String → Fields → Option Json
lookup k end = none
lookup k (field j v fs) = if str_eq j k then some v else lookup k fs

-- The value, or one in place of a missing key.
abbrev pub get_or : Json → Option Json → Json
get_or default none = default
get_or default (some v) = v

-- d[k] = v
unfoldable pub store : String → Json → Fields → Fields
store k v end = field k v end
store k v (field j w fs) = if str_eq j k then field j v fs else field j w (store k v fs)

-- list(d), as values
unfoldable pub keys_of : Fields → List Json
keys_of end = []
keys_of (field k v fs) = str k ∷ keys_of fs

-- d.values()
unfoldable pub values_of : Fields → List Json
values_of end = []
values_of (field k v fs) = v ∷ values_of fs

unfoldable pub items_of : Items → List Json
items_of nil = []
items_of (cons x xs) = x ∷ items_of xs

-- list(s), the characters of a text as texts
unfoldable pub characters_of : String → List Json
characters_of String.[] = []
characters_of (String.◌∷◌ c s) = str (String.◌∷◌ c String.[]) ∷ characters_of s

-- iter(value), none where the value is not iterable
unfoldable pub elements : Json → Option (List Json)
unfolding keys_of items_of characters_of
elements null = none
elements (bool b) = none
elements (num n) = none
elements (str s) = some (characters_of s)
elements (arr xs) = some (items_of xs)
elements (obj fs) = some (keys_of fs)

-- value == t, for a text
unfoldable pub is_text : String → Json → Bool
is_text t (str s) = str_eq s t
is_text t _ = false

-- t in values
unfoldable pub has_text : String → List Json → Bool
has_text t [] = false
has_text t (v ∷ vs) = if is_text t v then true else has_text t vs
