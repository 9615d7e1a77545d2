-- ===== src/Exec/Returns.antt =====
-- Total correctness of actions: from a state with `P` the action returns, it does not raise, and
-- `Q` holds of what it returns and of the state that it leaves.
use python_agent_with_idp.Prelude.{◌≡◌, refl, Bool, true, false, if◌then◌else◌}
use python_agent_with_idp.Exec.{Outcome, returned, Exec, return, gets, resume, ◌>>=◌}

pub record Returns {ℓ} {S A : Type ℓ} (P : S → Type ℓ) (m : Exec S A) (Q : A → S → Type ℓ)
    : Type ℓ where
  pub run : (s : S) → P s → (a : A) × ((m s).0 ≡ returned a) × Q a (m s).1

module _ {ℓ} {S A : Type ℓ} {P : S → Type ℓ} {Q : A → S → Type ℓ} where
  pub Returns-return : (a : A) → ((s : S) → P s → Q a s) → Returns P (return a) Q
  Returns-return a le = record { run = λ s h. (a, refl, le s h) }

  pub Returns-gets : (f : S → A) → ((s : S) → P s → Q (f s) s) → Returns P (gets f) Q
  Returns-gets f le = record { run = λ s h. (f s, refl, le s h) }

  pub Returns-if :
      (b : Bool) (m n : Exec S A)
      → (b ≡ true → Returns P m Q)
      → (b ≡ false → Returns P n Q)
      → Returns P (if b then m else n) Q
  Returns-if true m n km kn = km refl
  Returns-if false m n km kn = kn refl

module _ {ℓ} {S A : Type ℓ} {P P' : S → Type ℓ} {Q : A → S → Type ℓ} where
  pub Returns-strengthen : {m : Exec S A} → Returns P m Q → ((s : S) → P' s → P s) → Returns P' m Q
  Returns-strengthen k le = record { run = λ s h. k.run s (le s h) }

resume_returns {ℓ} :
    {S A B : Type ℓ} {R : A → S → Type ℓ} {Q : B → S → Type ℓ} (r : Outcome A) (f : A → Exec S B)
    (s : S) (a : A)
    → r ≡ returned a
    → R a s
    → ((a : A) → Returns (R a) (f a) Q)
    → (b : B) × ((resume r f s).0 ≡ returned b) × Q b (resume r f s).1
resume_returns r f s a e h kf = rw e ((kf a).run s h)

module _ {ℓ} {S A B : Type ℓ} {P : S → Type ℓ} {R : A → S → Type ℓ} {Q : B → S → Type ℓ} where
  pub Returns-bind :
      (m : Exec S A) (f : A → Exec S B)
      → Returns P m R
      → ((a : A) → Returns (R a) (f a) Q)
      → Returns P (m >>= f) Q
  unfolding ◌>>=◌
  Returns-bind m f km kf = record {
    run = λ s h. let (a, e, h') = km.run s h in resume_returns (m s).0 f (m s).1 a e h' kf;
  }
