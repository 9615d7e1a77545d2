-- ===== src/Dict/Laws.antt =====
-- The laws by which the other modules reason about dictionaries.
use python_agent_with_idp.Prelude.{
  elem, Bool-cases, inl, inr, is_some, ==-refl, ℕ, ◌≡◌, refl, true, false, none, some, [], ◌∷◌,
  ◌++◌, arith, ◌==◌, if◌then◌else◌,
}
use python_agent_with_idp.Dict.{Dict, get, contains, put, keys}

module _ {ℓ} {V : Type ℓ} where
  pub get-put :
      (d : Dict V) (k j : ℕ) (v : V) → get (put d k v) j ≡ (if k == j then some v else get d j)
  unfolding get put
  get-put [] k j v = refl
  get-put ((i, w) ∷ d) k j v = ground (arith, get-put d k j v)

  pub contains-put :
      (d : Dict V) (k j : ℕ) (v : V)
      → contains (put d k v) j ≡ (if k == j then true else contains d j)
  unfolding contains put
  contains-put [] k j v = refl
  contains-put ((i, w) ∷ d) k j v = ground (arith, contains-put d k j v)

  pub contains-eq-is_some : (d : Dict V) (k : ℕ) → contains d k ≡ is_some (get d k)
  unfolding contains get
  contains-eq-is_some [] k = refl
  contains-eq-is_some ((i, w) ∷ d) k = ground (arith, contains-eq-is_some d k)

  pub contains_of_get : (d : Dict V) (k : ℕ) {v : V} → get d k ≡ some v → contains d k ≡ true
  contains_of_get d k h = ground (arith, contains-eq-is_some d k)

  pub get_of_not_contains : (d : Dict V) (k : ℕ) → contains d k ≡ false → get d k ≡ none
  get_of_not_contains d k h = ground (arith, contains-eq-is_some d k)

  -- A write to a key that is there changes no key and no position.
  pub keys-put_there :
      (d : Dict V) (k : ℕ) (v : V) → contains d k ≡ true → keys (put d k v) ≡ keys d
  unfolding keys put contains
  keys-put_there [] k v h = ground arith
  keys-put_there ((i, w) ∷ d) k v h = ground (arith, keys-put_there d k v)

  -- A new key goes to the end.
  pub keys-put_new :
      (d : Dict V) (k : ℕ) (v : V) → contains d k ≡ false → keys (put d k v) ≡ keys d ++ k ∷ []
  unfolding keys put contains
  keys-put_new [] k v h = refl
  keys-put_new ((i, w) ∷ d) k v h = ground (arith, keys-put_new d k v)

  -- Of two writes to a key the second stays.
  pub put-put : (d : Dict V) (k : ℕ) (v w : V) → put (put d k v) k w ≡ put d k w
  unfolding put
  put-put [] k v w = simp ==-refl
  put-put ((i, u) ∷ d) k v w = ground (arith, put-put d k v w)

  pub get_of_contains : (d : Dict V) (k : ℕ) → contains d k ≡ true → (v : V) × (get d k ≡ some v)
  unfolding contains get
  get_of_contains [] k h = cc
  get_of_contains ((i, w) ∷ d) k h = elim (Bool-cases (i == k)) [
    | inl same ↦ (w, rw same)
    | inr other ↦ let (v, e) = get_of_contains d k (rw other at h) in (v, rw other e)
  ]

  pub contains-eq-elem : (d : Dict V) (k : ℕ) → contains d k ≡ elem k (keys d)
  unfolding contains keys
  contains-eq-elem [] k = refl
  contains-eq-elem ((i, w) ∷ d) k = ground (arith, contains-eq-elem d k)

  pub get-put_self : (d : Dict V) (k : ℕ) (v : V) → get (put d k v) k ≡ some v
  get-put_self d k v = simp (get-put, ==-refl)
