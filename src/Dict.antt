-- ===== src/Dict.antt =====
-- Python's `dict` with UUID keys, a UUID being its 128-bit number: the entries in the order of
-- insertion, which the iteration of `claim_run` follows.
pub mod Laws
use python_agent_with_idp.Prelude.{
  ℕ, Bool, true, false, Option, none, some, List, [], ◌∷◌, ◌==◌, if◌then◌else◌,
}

abbrev pub Dict {ℓ} : Type ℓ → Type ℓ
Dict V = List (ℕ × V)

module _ {ℓ} {V : Type ℓ} where
  -- d.get(k)
  unfoldable pub get : Dict V → ℕ → Option V
  get [] k = none
  get ((j, v) ∷ d) k = if j == k then some v else get d k

  -- k in d
  unfoldable pub contains : Dict V → ℕ → Bool
  contains [] k = false
  contains ((j, v) ∷ d) k = if j == k then true else contains d k

  -- d[k] = v: a key that is there keeps its place, a new one goes to the end
  unfoldable pub put : Dict V → ℕ → V → Dict V
  put [] k v = (k, v) ∷ []
  put ((j, w) ∷ d) k v = if j == k then (j, v) ∷ d else (j, w) ∷ put d k v

  -- list(d)
  unfoldable pub keys : Dict V → List ℕ
  keys [] = []
  keys ((j, v) ∷ d) = j ∷ keys d
