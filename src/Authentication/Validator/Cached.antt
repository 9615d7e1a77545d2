-- ===== src/Authentication/Validator/Cached.antt =====
-- The documents that the validation client keeps.
use python_agent_with_idp.Prelude.{
  ℕ, String, ◌≡◌, refl, sym, ap, ◌∙◌, Option, Option-cases, inl, inr, none, some, List,
}
use python_agent_with_idp.Json.{Json, null, bool, num, str, arr, obj, Fields}
use python_agent_with_idp.Json.Values.{lookup}
use python_agent_with_idp.Json.Values.Laws.{lookup-store_self}
use python_agent_with_idp.Error.{Exception}
use python_agent_with_idp.Exec.{returned, ◌>>=◌}
use python_agent_with_idp.Exec.Leads.{Keeps, Keeps-bind, Keeps-gets, Keeps-lift}
use python_agent_with_idp.Exec.Results
use python_agent_with_idp.Exec.Returned.{returned_eq, bind-Parts, bind_lift_parts}
use python_agent_with_idp.Authentication.{Libraries}
use python_agent_with_idp.Authentication.Validator.{
  JwtValidationClient, cache_metadata, fetch_metadata, cache_jwks, fetch_jwks, subscript,
  as_address, fetch, get_oidc_metadata, get_jwks, authenticate,
}

-- Both documents for an identity provider are cached.
pub record HasDocuments (discovery_url : String) (client : JwtValidationClient) : Type 0 where
  pub metadata : Fields
  pub jwks_uri : String
  pub jwks : Json
  pub metadata_cached : lookup discovery_url client.metadata_cache ≡ some (obj metadata)
  pub uri_there : lookup "jwks_uri" metadata ≡ some (str jwks_uri)
  pub jwks_cached : lookup jwks_uri client.jwks_cache ≡ some jwks

or_raise_returned :
    (exc : Exception) (o : Option Json) (w : Json)
    → Results.or_raise exc o ≡ returned w
    → o ≡ some w
unfolding Results.or_raise
or_raise_returned exc none w h = cc
or_raise_returned exc (some v) w h = cc

module _ (libs : Libraries) (url : String) (c : JwtValidationClient) where
  metadata_cached_lem :
      (metadata : Json)
      → lookup url c.metadata_cache ≡ some metadata
      → get_oidc_metadata libs url c ≡ (returned metadata, c)
  unfolding get_oidc_metadata
  metadata_cached_lem metadata e = rw (e, get_oidc_metadata) refl

  metadata_missing :
      lookup url c.metadata_cache ≡ none → get_oidc_metadata libs url c ≡ fetch_metadata libs url c
  unfolding get_oidc_metadata
  metadata_missing e = rw (e, get_oidc_metadata) refl

  jwks_cached_lem :
      (jwks : Json) → lookup url c.jwks_cache ≡ some jwks → get_jwks libs url c ≡ (returned jwks, c)
  unfolding get_jwks
  jwks_cached_lem jwks e = rw (e, get_jwks) refl

  jwks_missing : lookup url c.jwks_cache ≡ none → get_jwks libs url c ≡ fetch_jwks libs url c
  unfolding get_jwks
  jwks_missing e = rw (e, get_jwks) refl

-- What a cell holds when it has just been written.
cache_metadata_kept :
    (libs : Libraries) (url : String) (metadata value : Json) (c c' : JwtValidationClient)
    → cache_metadata libs url metadata c ≡ (returned value, c')
    → lookup url c'.metadata_cache ≡ some value
unfolding cache_metadata
cache_metadata_kept libs url metadata value c c' h =
    ap (λ p. lookup url p.1.metadata_cache) (sym h)
    ∙ lookup-store_self url metadata c.metadata_cache
    ∙ ap some (returned_eq (ap (λ p. p.0) h))

cache_jwks_kept :
    (libs : Libraries) (url : String) (jwks value : Json) (c c' : JwtValidationClient)
    → cache_jwks libs url jwks c ≡ (returned value, c')
    → (lookup url c'.jwks_cache ≡ some value) × (c'.metadata_cache ≡ c.metadata_cache)
unfolding cache_jwks
cache_jwks_kept libs url jwks value c c' h = (
  ap (λ p. lookup url p.1.jwks_cache) (sym h)
      ∙ lookup-store_self url jwks c.jwks_cache
      ∙ ap some (returned_eq (ap (λ p. p.0) h)),
  ap (λ p. p.1.metadata_cache) (sym h),
)

-- A request leaves the caches as they are.
module _ (libs : Libraries) (url : String) (c : JwtValidationClient) where
  abbrev SameCache : JwtValidationClient → Type 0
  SameCache s = s.metadata_cache ≡ c.metadata_cache

  fetch-Keeps : Keeps SameCache (fetch libs url)
  unfolding fetch
  fetch-Keeps = Keeps-bind _ _ (Keeps-gets _) λ before.
      Keeps-bind _ _ (record { after = λ s h. h })
        λ done.
          Keeps-bind _ _ (Keeps-lift _) λ response. Keeps-bind _ _ (Keeps-lift _) λ ok. Keeps-lift _

  fetch_keeps : (fetch libs url c).1.metadata_cache ≡ c.metadata_cache
  fetch_keeps = fetch-Keeps.after c refl

module _ (libs : Libraries) (url : String) (c : JwtValidationClient) (value : Json)
    (c' : JwtValidationClient) where
  -- A document that was given is cached afterwards.
  metadata_kept :
      get_oidc_metadata libs url c ≡ (returned value, c')
      → lookup url c'.metadata_cache ≡ some value
  unfolding fetch_metadata
  metadata_kept h = elim (Option-cases (lookup url c.metadata_cache)) [
    | inl missing ↦
        let parts =
          bind-Parts (fetch libs (libs.get_well_known_url url)) (cache_metadata libs url) c value c'
            (sym (metadata_missing libs url c missing) ∙ h) in
        cache_metadata_kept libs url parts.value value parts.between c' parts.second
    | inr (metadata, e) ↦
        let p = sym (metadata_cached_lem libs url c metadata e) ∙ h in
        ap (λ q. lookup url q.1.metadata_cache) (sym p)
        ∙ e
        ∙ ap some (returned_eq (ap (λ q. q.0) p))
  ]

  jwks_kept :
      get_jwks libs url c ≡ (returned value, c')
      → (lookup url c'.jwks_cache ≡ some value) × (c'.metadata_cache ≡ c.metadata_cache)
  unfolding fetch_jwks
  jwks_kept h = elim (Option-cases (lookup url c.jwks_cache)) [
    | inl missing ↦
        let parts =
          bind-Parts (fetch libs url) (cache_jwks libs url) c value c'
            (sym (jwks_missing libs url c missing) ∙ h) in
        let (kept, same) =
          cache_jwks_kept libs url parts.value value parts.between c' parts.second in
        (kept, same ∙ ap (λ p. p.1.metadata_cache) (sym parts.first) ∙ fetch_keeps libs url c)
    | inr (jwks, e) ↦
        let p = sym (jwks_cached_lem libs url c jwks e) ∙ h in
        (
          ap (λ q. lookup url q.1.jwks_cache) (sym p) ∙ e ∙ ap some (returned_eq (ap (λ q. q.0) p)),
          ap (λ q. q.1.metadata_cache) (sym p),
        )
  ]

subscript_returned :
    (k : String) (value w : Json)
    → subscript k value ≡ returned w
    → (fs : Fields) × (value ≡ obj fs) × (lookup k fs ≡ some w)
unfolding subscript
subscript_returned k null w h = cc
subscript_returned k (bool b) w h = cc
subscript_returned k (num n) w h = cc
subscript_returned k (str s) w h = cc
subscript_returned k (arr xs) w h = cc
subscript_returned k (obj fs) w h = (fs, refl, or_raise_returned _ (lookup k fs) w h)

as_address_returned : (value : Json) (u : String) → as_address value ≡ returned u → value ≡ str u
unfolding as_address
as_address_returned null u h = cc
as_address_returned (bool b) u h = cc
as_address_returned (num n) u h = cc
as_address_returned (str s) u h = cc
as_address_returned (arr xs) u h = cc
as_address_returned (obj fs) u h = cc

module _ (libs : Libraries) (now : ℕ) (token : String) (audience : List String) (url : String)
    (c : JwtValidationClient) where
  documents_stay : HasDocuments url c → (authenticate libs now token audience url c).1 ≡ c
  unfolding authenticate subscript as_address Results.or_raise ◌>>=◌
  documents_stay has =
      rw
        (
          metadata_cached_lem libs url c (obj has.metadata) has.metadata_cached,
          has.uri_there,
          jwks_cached_lem libs has.jwks_uri c has.jwks has.jwks_cached,
        )
        refl

module _ (libs : Libraries) (now : ℕ) (token : String) (audience : List String) (url : String)
    (c : JwtValidationClient) where
  -- A call that returns leaves both documents in the caches.
  authenticate-HasDocuments :
      (claims : Fields) (c' : JwtValidationClient)
      → authenticate libs now token audience url c ≡ (returned claims, c')
      → HasDocuments url c'
  unfolding authenticate
  authenticate-HasDocuments claims c' h =
      let parts = bind-Parts _ _ c claims c' h in
      let (uri_value, subscripted, rest) =
        bind_lift_parts _ _ parts.between claims c' parts.second in
      let (jwks_uri, addressed, rest') = bind_lift_parts _ _ parts.between claims c' rest in
      let parts' = bind-Parts _ _ parts.between claims c' rest' in
      let (metadata, is_object, uri_there) =
        subscript_returned "jwks_uri" parts.value uri_value subscripted in
      let (jwks_cached, same) =
        jwks_kept libs jwks_uri parts.between parts'.value parts'.between parts'.first in
      let left = ap (λ p. p.1) parts'.second in
      record {
        metadata = metadata;
        jwks_uri = jwks_uri;
        jwks = parts'.value;
        metadata_cached =
            ap (λ s. lookup url s.metadata_cache) (sym left)
            ∙ ap (λ fs. lookup url fs) same
            ∙ metadata_kept libs url c parts.value parts.between parts.first
            ∙ ap some is_object;
        uri_there = uri_there ∙ ap some (as_address_returned uri_value jwks_uri addressed);
        jwks_cached = ap (λ s. lookup jwks_uri s.jwks_cache) (sym left) ∙ jwks_cached;
      }

  -- After a call of `authenticate` that has returned, no later call for the same identity
  -- provider, whatever its token and whatever the libraries do by then, requests a document or
  -- changes a cache: the keys of the first call are used for ever.
  pub cached_documents_stay :
      (claims : Fields) (c' : JwtValidationClient)
      → authenticate libs now token audience url c ≡ (returned claims, c')
      → (libs' : Libraries) (now' : ℕ) (token' : String) (audience' : List String)
      → (authenticate libs' now' token' audience' url c').1 ≡ c'
  cached_documents_stay claims c' h libs' now' token' audience' =
      documents_stay libs' now' token' audience' url c' (authenticate-HasDocuments claims c' h)
