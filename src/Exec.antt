-- ===== src/Exec.antt =====
-- Methods that change an object and may raise. What was written before a `raise` stays written,
-- so the state comes back beside the exception too.
pub mod Results
pub mod Returned
pub mod Leads
pub mod Returns
use python_agent_with_idp.Error.{Exception}

pub data Outcome {ℓ} (A : Type ℓ) : Type ℓ where
  returned : A → Outcome A
  raised : Exception → Outcome A

-- What a method without a result returns.
abbrev pub Done : Type 0
Done = Unit

abbrev pub Exec {ℓ} : Type ℓ → Type ℓ → Type ℓ
Exec S A = S → Outcome A × S

module _ {ℓ} {S A : Type ℓ} where
  abbrev pub return : A → Exec S A
  return a s = (returned a, s)

  abbrev pub raise : Exception → Exec S A
  raise e s = (raised e, s)

  -- a call that reads nothing and writes nothing
  abbrev pub lift : Outcome A → Exec S A
  lift r s = (r, s)

  abbrev pub gets : (S → A) → Exec S A
  gets f s = (returned (f s), s)

module _ {ℓ} {S A B : Type ℓ} where
  abbrev pub resume : Outcome A → (A → Exec S B) → Exec S B
  resume (returned a) f s = f a s
  resume (raised e) f s = (raised e, s)

  infixl 10 ◌>>=◌ ◌>>◌
  unfoldable pub ◌>>=◌ : Exec S A → (A → Exec S B) → Exec S B
  ◌>>=◌ m f s = let (r, s') = m s in resume r f s'

  abbrev pub ◌>>◌ : Exec S A → Exec S B → Exec S B
  m >> n = m >>= λ _. n

abbrev pub modify : {S : Type 0} → (S → S) → Exec S Done
modify f s = (returned tt, f s)

module _ {ℓ} {S A : Type ℓ} where
  unfoldable pub handle : Outcome A → (Exception → Exec S A) → Exec S A
  handle (returned a) handler s = (returned a, s)
  handle (raised e) handler s = handler e s

  -- try: ... except Exception as exc: ...
  unfoldable pub catch : Exec S A → (Exception → Exec S A) → Exec S A
  unfolding handle
  catch m handler s = let (r, s') = m s in handle r handler s'

  -- try: ... finally: ..., with a `finally` that does not raise
  unfoldable pub finally : Exec S A → (S → S) → Exec S A
  finally m cleanup s = let (r, s') = m s in (r, cleanup s')
