-- ===== src/Authentication/Claims/Parsed.antt =====
-- What the parser makes of the claims of a Keycloak token.
use mathlib.Core.List.{append-nil, append_assoc, map-append}
use python_agent_with_idp.Prelude.{
  String, ◌≡◌, refl, sym, ap, ◌∙◌, true, false, if◌then◌else◌, some, List, [], ◌∷◌, ◌++◌, map, All,
}
use python_agent_with_idp.Texts.{is_empty, split}
use python_agent_with_idp.Texts.Words.{IsWord, join, split-join}
use python_agent_with_idp.Json.{Json, str, arr, obj, Items, nil, cons, Fields, end, field}
use python_agent_with_idp.Json.Values.{truthy, or_else, lookup, values_of, items_of, elements}
use python_agent_with_idp.Exec.{returned}
use python_agent_with_idp.Exec.Results.{◌>>=◌, or_raise}
use python_agent_with_idp.Authentication.Claims.{
  as_dict, extend, add_roles, add_client_roles, add_resource_roles, roles_of, split_value,
  scopes_of, username_of, parse_keycloak_claims,
}

-- A list of texts as a JSON array.
abbrev pub texts : List String → Items
texts [] = nil
texts (t ∷ ts) = cons (str t) (texts ts)

-- What "realm_access", and each client of "resource_access", is: a dictionary with its roles.
pub record RoleHolder : Type 0 where
  pub fields : Fields
  pub roles : List String
  pub roles_there : lookup "roles" fields ≡ some (arr (texts roles))

-- The roles of the clients, one client after the other.
abbrev pub roles_of_all : List RoleHolder → List String
roles_of_all [] = []
roles_of_all (holder ∷ holders) = holder.roles ++ roles_of_all holders

items_of-texts : (ts : List String) → items_of (texts ts) ≡ map str ts
unfolding items_of
items_of-texts [] = refl
items_of-texts (t ∷ ts) = ap (λ vs. str t ∷ vs) (items_of-texts ts)

extend-texts :
    (roles : List Json) (ts : List String)
    → (if truthy (arr (texts ts)) then extend roles (arr (texts ts)) else returned roles)
      ≡ returned (roles ++ map str ts)
unfolding truthy extend elements or_raise ◌>>=◌
extend-texts roles [] = ap returned (sym (append-nil roles))
extend-texts roles (t ∷ ts) = rw (items_of-texts (t ∷ ts)) refl

add_roles_lem :
    (roles : List Json) (holder : RoleHolder)
    → add_roles roles holder.fields ≡ returned (roles ++ map str holder.roles)
unfolding add_roles
add_roles_lem roles holder = rw holder.roles_there (extend-texts roles holder.roles)

add_client_roles_lem :
    (roles : List Json) (holders : List RoleHolder)
    → add_client_roles roles (map (λ h. obj h.fields) holders)
      ≡ returned (roles ++ map str (roles_of_all holders))
unfolding add_client_roles as_dict ◌>>=◌
add_client_roles_lem roles [] = ap returned (sym (append-nil roles))
add_client_roles_lem roles (holder ∷ holders) =
    rw
      (
        add_roles_lem roles holder,
        add_client_roles_lem (roles ++ map str holder.roles) holders,
        map-append,
        append_assoc,
      )
      refl

scope_text :
    (s : String)
    → (if truthy (str s) then split_value (str s) else returned []) ≡ returned (split s)
unfolding truthy split_value split
scope_text String.[] = refl
scope_text (String.◌∷◌ c s) = refl

truthy_text : (s : String) → is_empty s ≡ false → truthy (str s) ≡ true
unfolding truthy
truthy_text s full = rw full refl

module _ (claims : Fields) where
  scopes_of_lem :
      (words : List String)
      → lookup "scope" claims ≡ some (str (join words))
      → All IsWord words
      → scopes_of claims ≡ returned words
  unfolding scopes_of
  scopes_of_lem words there are_words =
      rw there (scope_text (join words)) ∙ ap returned (split-join words are_words)

  add_resource_roles_lem :
      (roles : List Json) (resource_access : Fields) (holders : List RoleHolder)
      → values_of resource_access ≡ map (λ h. obj h.fields) holders
      → add_resource_roles roles (obj resource_access)
        ≡ returned (roles ++ map str (roles_of_all holders))
  unfolding add_resource_roles as_dict truthy ◌>>=◌ values_of
  add_resource_roles_lem roles end [] e = ap returned (sym (append-nil roles))
  add_resource_roles_lem roles end (holder ∷ holders) e = cc
  add_resource_roles_lem roles (field k v fs) holders e =
      ap (add_client_roles roles) e ∙ add_client_roles_lem roles holders

  -- The claims of a complete Keycloak token give the user with the id, the preferred name and
  -- the email of the claims, the roles of the realm followed by those of the clients in their
  -- order, and the words of the scope, if the name is not empty and the scope is a list of
  -- words joined by spaces.
  pub parse_keycloak_claims_exact :
      (user_id name : String) (email : Json) (realm : RoleHolder) (resource_access : Fields)
      (clients : List RoleHolder) (words : List String)
      → lookup "sub" claims ≡ some (str user_id)
      → lookup "preferred_username" claims ≡ some (str name)
      → is_empty name ≡ false
      → lookup "email" claims ≡ some email
      → lookup "realm_access" claims ≡ some (obj realm.fields)
      → lookup "resource_access" claims ≡ some (obj resource_access)
      → values_of resource_access ≡ map (λ client. obj client.fields) clients
      → lookup "scope" claims ≡ some (str (join words))
      → All IsWord words
      → parse_keycloak_claims claims
        ≡ returned (record {
          user_id = str user_id;
          username = str name;
          email = email;
          roles = map str (realm.roles ++ roles_of_all clients);
          scopes = words;
        })
  unfolding parse_keycloak_claims roles_of username_of or_else or_raise as_dict ◌>>=◌
  parse_keycloak_claims_exact user_id name email realm resource_access clients words sub preferred
        full mail realm_there clients_there all_clients scope are_words =
      rw
        (
          sub,
          realm_there,
          add_roles_lem [] realm,
          clients_there,
          add_resource_roles_lem (map str realm.roles) resource_access clients all_clients,
          scopes_of_lem words scope are_words,
          preferred,
          truthy_text name full,
          mail,
          map-append,
        )
        refl
