-- ===== src/Json/Values/Laws.antt =====
-- Looking up what has been stored.
use python_agent_with_idp.Prelude.{String, str_eq, ◌≡◌, refl, Bool-cases, inl, inr, some}
use text.Mathlib.TextPositions.{eq_refl}
use python_agent_with_idp.Json.{Json, Fields, end, field}
use python_agent_with_idp.Json.Values.{lookup, store}

pub lookup-store_self : (k : String) (v : Json) (fs : Fields) → lookup k (store k v fs) ≡ some v
unfolding lookup store
lookup-store_self k v end = rw (eq_refl k) refl
lookup-store_self k v (field j w fs) = elim (Bool-cases (str_eq j k)) [
  | inl same ↦ rw (same, same) refl
  | inr other ↦ rw (other, other) (lookup-store_self k v fs)
]
