-- ===== src/Authentication/Claims.antt =====
-- llm_agent/llm_agent/domain/authentication/user.py and
-- llm_agent/llm_agent/infrastructure/authentication/keycloak_claims_parser.py. The claims come from
-- a token, so that each of them may be any value.
pub mod Parsed
use python_agent_with_idp.Prelude.{
  String, str_eq, Bool, true, false, if◌then◌else◌, Option, none, some, List, [], ◌∷◌, ◌++◌,
}
use python_agent_with_idp.Texts.{split}
use python_agent_with_idp.Json.{Json, null, bool, num, str, arr, obj, Fields, end}
use python_agent_with_idp.Json.Values.{
  truthy, or_else, lookup, get_or, values_of, elements, has_text,
}
use python_agent_with_idp.Error.{missing_key, attribute_error, type_error}
use python_agent_with_idp.Exec.{Outcome, returned, raised}
use python_agent_with_idp.Exec.Results.{◌>>=◌, ◌>>◌, or_raise}

pub record AuthenticatedUser : Type 0 where
  pub user_id : Json
  pub username : Json
  pub email : Json
  pub roles : List Json
  pub scopes : List String

unfoldable pub has_role : AuthenticatedUser → String → Bool
has_role user role = has_text role user.roles

text_among : String → List String → Bool
text_among t [] = false
text_among t (s ∷ ss) = if str_eq s t then true else text_among t ss

unfoldable pub has_scope : AuthenticatedUser → String → Bool
unfolding text_among
has_scope user scope = text_among scope user.scopes

-- The methods of `dict` on a value that may be none.
unfoldable pub as_dict : Json → Outcome Fields
as_dict (obj fs) = returned fs
as_dict _ = raised (attribute_error "object has no attribute of dict")

-- roles.extend(value)
unfoldable pub extend : List Json → Json → Outcome (List Json)
extend roles value = do
  vs ← or_raise (type_error "object is not iterable") (elements value)
  returned (roles ++ vs)

-- if found := holder.get("roles"): roles.extend(found)
unfoldable pub add_roles : List Json → Fields → Outcome (List Json)
unfolding extend
add_roles roles holder =
    let found = get_or null (lookup "roles" holder) in
    if truthy found then extend roles found else returned roles

-- The loop over the clients.
unfoldable pub add_client_roles : List Json → List Json → Outcome (List Json)
unfolding as_dict add_roles
add_client_roles roles [] = returned roles
add_client_roles roles (client ∷ clients) = do
  client_roles ← as_dict client
  roles' ← add_roles roles client_roles
  add_client_roles roles' clients

-- if resource_access := claims.get("resource_access"): ...
unfoldable pub add_resource_roles : List Json → Json → Outcome (List Json)
unfolding as_dict add_client_roles
add_resource_roles roles resource_access =
    if truthy resource_access
    then (do clients ← as_dict resource_access; add_client_roles roles (values_of clients))
    else returned roles

unfoldable pub roles_of : Fields → Outcome (List Json)
unfolding as_dict add_roles add_resource_roles
roles_of claims = do
  realm_access ← as_dict (get_or (obj end) (lookup "realm_access" claims))
  roles ← add_roles [] realm_access
  add_resource_roles roles (get_or null (lookup "resource_access" claims))

unfoldable pub split_value : Json → Outcome (List String)
split_value (str s) = returned (split s)
split_value _ = raised (attribute_error "object has no attribute 'split'")

unfoldable pub scopes_of : Fields → Outcome (List String)
unfolding split_value
scopes_of claims =
    let scope_str = get_or (str "") (lookup "scope" claims) in
    if truthy scope_str then split_value scope_str else returned []

unfoldable pub username_of : Json → Fields → Json
username_of user_id claims =
    or_else (get_or null (lookup "preferred_username" claims))
      (or_else (get_or null (lookup "name" claims)) user_id)

unfoldable pub parse_keycloak_claims : Fields → Outcome AuthenticatedUser
unfolding username_of roles_of scopes_of
parse_keycloak_claims claims = do
  user_id ← or_raise (missing_key "sub") (lookup "sub" claims)
  roles ← roles_of claims
  scopes ← scopes_of claims
  returned (record {
    user_id = user_id;
    username = username_of user_id claims;
    email = get_or null (lookup "email" claims);
    roles = roles;
    scopes = scopes;
  })
