-- ===== src/Exec/Returned.antt =====
-- What an action that has returned tells of its parts.
use python_agent_with_idp.Prelude.{◌≡◌, refl}
use python_agent_with_idp.Exec.{Outcome, returned, raised, Exec, resume, lift, ◌>>=◌}

pub returned_eq {ℓ} : {A : Type ℓ} {a b : A} → returned a ≡ returned b → a ≡ b
returned_eq h = cc

-- The first part has returned, and the second one from the state that it left.
pub record Parts {ℓ} {S A B : Type ℓ} (m : Exec S A) (f : A → Exec S B) (s : S) (b : B) (s' : S)
    : Type ℓ where
  pub value : A
  pub between : S
  pub first : m s ≡ (returned value, between)
  pub second : f value between ≡ (returned b, s')

module _ {ℓ} {S A B : Type ℓ} where
  resume-Parts :
      (m : Exec S A) (f : A → Exec S B) (s : S) (b : B) (s' : S) (o : Outcome A) (t : S)
      → m s ≡ (o, t)
      → resume o f t ≡ (returned b, s')
      → Parts m f s b s'
  resume-Parts m f s b s' (returned a) t e h = record {
    value = a;
    between = t;
    first = e;
    second = h;
  }
  resume-Parts m f s b s' (raised exc) t e h = cc

  pub bind-Parts :
      (m : Exec S A) (f : A → Exec S B) (s : S) (b : B) (s' : S)
      → (m >>= f) s ≡ (returned b, s')
      → Parts m f s b s'
  unfolding ◌>>=◌
  bind-Parts m f s b s' h = resume-Parts m f s b s' (m s).0 (m s).1 refl h

  pub bind_lift_parts :
      (r : Outcome A) (f : A → Exec S B) (s : S) (b : B) (s' : S)
      → (lift r >>= f) s ≡ (returned b, s')
      → (a : A) × (r ≡ returned a) × (f a s ≡ (returned b, s'))
  unfolding ◌>>=◌
  bind_lift_parts (returned a) f s b s' h = (a, refl, h)
  bind_lift_parts (raised exc) f s b s' h = cc
