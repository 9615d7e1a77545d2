-- ===== src/Exec/Results.antt =====
-- Functions that change nothing and may raise.
use python_agent_with_idp.Prelude.{Option, none, some}
use python_agent_with_idp.Error.{Exception}
use python_agent_with_idp.Exec.{Outcome, returned, raised}

infixl 10 ◌>>=◌ ◌>>◌
unfoldable pub ◌>>=◌ {ℓ} : {A B : Type ℓ} → Outcome A → (A → Outcome B) → Outcome B
returned a >>= f = f a
raised e >>= f = raised e

abbrev pub ◌>>◌ {ℓ} : {A B : Type ℓ} → Outcome A → Outcome B → Outcome B
m >> n = m >>= λ _. n

-- The value, or the exception in place of a missing one.
unfoldable pub or_raise {ℓ} : {A : Type ℓ} → Exception → Option A → Outcome A
or_raise e none = raised e
or_raise e (some a) = returned a
