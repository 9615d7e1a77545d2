-- ===== src/Exec/Leads.antt =====
-- Reasoning about actions: what holds before leads to what holds after, whether the action
-- returns or raises, with one rule for each way to build an action.
use python_agent_with_idp.Prelude.{◌≡◌, refl, Bool, true, false, if◌then◌else◌}
use python_agent_with_idp.Error.{Exception}
use python_agent_with_idp.Exec.{
  Outcome, returned, raised, Exec, return, raise, lift, gets, resume, ◌>>=◌, handle, catch, finally,
}

pub record Leads {ℓ} {S A : Type ℓ} (P : S → Type ℓ) (m : Exec S A) (Q : S → Type ℓ) : Type ℓ where
  pub after : (s : S) → P s → Q (m s).1

-- `m` keeps `P`.
abbrev pub Keeps {ℓ} : {S A : Type ℓ} → (S → Type ℓ) → Exec S A → Type ℓ
Keeps P m = Leads P m P

module _ {ℓ} {S A : Type ℓ} {P : S → Type ℓ} where
  pub Keeps-return : (a : A) → Keeps P (return a)
  Keeps-return a = record { after = λ s h. h }

  pub Keeps-raise : (e : Exception) → Keeps P (raise {A = A} e)
  Keeps-raise e = record { after = λ s h. h }

  pub Keeps-lift : (r : Outcome A) → Keeps P (lift r)
  Keeps-lift r = record { after = λ s h. h }

  pub Keeps-gets : (f : S → A) → Keeps P (gets f)
  Keeps-gets f = record { after = λ s h. h }

module _ {ℓ} {S A : Type ℓ} {P Q : S → Type ℓ} where
  pub Leads-if :
      (b : Bool) (m n : Exec S A)
      → (b ≡ true → Leads P m Q)
      → (b ≡ false → Leads P n Q)
      → Leads P (if b then m else n) Q
  Leads-if true m n km kn = km refl
  Leads-if false m n km kn = kn refl

module _ {ℓ} {S A : Type ℓ} {P R Q : S → Type ℓ} where
  pub Leads-weaken : {m : Exec S A} → Leads P m R → ((s : S) → R s → Q s) → Leads P m Q
  Leads-weaken k le = record { after = λ s h. le _ (k.after s h) }

  pub Leads-strengthen : {m : Exec S A} → Leads R m Q → ((s : S) → P s → R s) → Leads P m Q
  Leads-strengthen k le = record { after = λ s h. k.after s (le s h) }

module _ {ℓ} {S A B : Type ℓ} {R Q : S → Type ℓ} where
  resume_leads :
      (r : Outcome A) (f : A → Exec S B)
      → ((a : A) → Leads R (f a) Q)
      → ((s : S) → R s → Q s)
      → Leads R (resume r f) Q
  resume_leads (returned a) f kf le = record { after = λ s h. (kf a).after s h }
  resume_leads (raised e) f kf le = record { after = λ s h. le s h }

module _ {ℓ} {S A B : Type ℓ} {P Q R : S → Type ℓ} where
  pub Leads-bind :
      (m : Exec S A) (f : A → Exec S B)
      → Leads P m R
      → ((a : A) → Leads R (f a) Q)
      → ((s : S) → R s → Q s)
      → Leads P (m >>= f) Q
  unfolding ◌>>=◌
  Leads-bind m f km kf le = record {
    after = λ s h. let (r, s') = m s in (resume_leads r f kf le).after s' (km.after s h);
  }

module _ {ℓ} {S A B : Type ℓ} {P Q : S → Type ℓ} where
  -- What follows a check may use that it did not raise.
  pub Leads-bind-lift :
      (r : Outcome A) (f : A → Exec S B)
      → ((a : A) → r ≡ returned a → Leads P (f a) Q)
      → ((s : S) → P s → Q s)
      → Leads P (lift r >>= f) Q
  unfolding ◌>>=◌
  Leads-bind-lift (returned a) f kf le = record { after = λ s h. (kf a refl).after s h }
  Leads-bind-lift (raised e) f kf le = record { after = λ s h. le s h }

module _ {ℓ} {S A B : Type ℓ} {P : S → Type ℓ} where
  pub Keeps-bind :
      (m : Exec S A) (f : A → Exec S B) → Keeps P m → ((a : A) → Keeps P (f a)) → Keeps P (m >>= f)
  Keeps-bind m f km kf = Leads-bind m f km kf (λ s h. h)

module _ {ℓ} {S A : Type ℓ} {P : S → Type ℓ} where
  pub Keeps-if : (b : Bool) (m n : Exec S A) → Keeps P m → Keeps P n → Keeps P (if b then m else n)
  Keeps-if true m n km kn = km
  Keeps-if false m n km kn = kn

pub ruleset keeps_rules = (Keeps-return, Keeps-raise, Keeps-lift, Keeps-gets, Keeps-if, Keeps-bind)

module _ {ℓ} {S A : Type ℓ} {P : S → Type ℓ} where
  handle-Keeps :
      (r : Outcome A) (handler : Exception → Exec S A)
      → ((e : Exception) → Keeps P (handler e))
      → Keeps P (handle r handler)
  unfolding handle
  handle-Keeps (returned a) handler kh = record { after = λ s h. h }
  handle-Keeps (raised e) handler kh = record { after = λ s h. (kh e).after s h }

  pub Keeps-catch :
      (m : Exec S A) (handler : Exception → Exec S A)
      → Keeps P m
      → ((e : Exception) → Keeps P (handler e))
      → Keeps P (catch m handler)
  unfolding catch
  Keeps-catch m handler km kh = record {
    after = λ s h. let (r, s') = m s in (handle-Keeps r handler kh).after s' (km.after s h);
  }

  pub Keeps-finally :
      (m : Exec S A) (cleanup : S → S)
      → Keeps P m
      → ((s : S) → P s → P (cleanup s))
      → Keeps P (finally m cleanup)
  unfolding finally
  Keeps-finally m cleanup km kc = record { after = λ s h. kc _ (km.after s h) }
