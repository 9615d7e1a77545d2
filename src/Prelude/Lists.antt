-- ===== src/Prelude/Lists.antt =====
-- Lists measured by native numbers, under the library's names.
use Prim.Native.Nat.{ℕ, zero, suc, ◌+◌}
use mathlib.Core.Path.{◌≡◌, subst}
use mathlib.Core.Logic.{inl, inr}
use mathlib.Core.List.{List, [], ◌∷◌, ◌++◌}
use python_agent_with_idp.Prelude.Tests.{◌==◌, ==→eq, Bool-cases, if◌then◌else◌}
use mathlib.Core.Bool.{Bool, true, false}
use native.Mathlib.Omega.{arith}

module _ {ℓ} {A : Type ℓ} where
  abbrev pub length : List A → ℕ
  length [] = 0
  length (x ∷ xs) = suc (length xs)

  abbrev pub drop : ℕ → List A → List A
  drop zero xs = xs
  drop (suc n) [] = []
  drop (suc n) (x ∷ xs) = drop n xs

  pub length-append : (xs ys : List A) → length (xs ++ ys) ≡ length xs + length ys
  length-append [] ys = omega arith
  length-append (x ∷ xs) ys = omega (arith, length-append xs ys)

-- Whether a number is among others.
abbrev pub elem : ℕ → List ℕ → Bool
elem k [] = false
elem k (j ∷ js) = if j == k then true else elem k js

-- A predicate on each item of a list, as a tuple that the tactics read.
abbrev pub All {ℓ κ} : {A : Type ℓ} → (A → Type κ) → List A → Type κ
All P [] = Unit
All P (x ∷ xs) = P x × All P xs

pub All-append {ℓ κ} :
    {A : Type ℓ} (P : A → Type κ) (xs ys : List A) → All P xs → All P ys → All P (xs ++ ys)
All-append P [] ys hx hy = hy
All-append P (x ∷ xs) ys hx hy = (hx.0, All-append P xs ys hx.1 hy)

pub All-map {ℓ κ} :
    {A : Type ℓ} (P Q : A → Type κ) (xs : List A) → ((x : A) → P x → Q x) → All P xs → All Q xs
All-map P Q [] f h = h
All-map P Q (x ∷ xs) f h = (f x h.0, All-map P Q xs f h.1)

pub elem_self : (xs : List ℕ) → All (λ x. elem x xs ≡ true) xs
elem_self [] = tt
elem_self (x ∷ xs) = (
  ground arith,
  All-map (λ y. elem y xs ≡ true) (λ y. elem y (x ∷ xs) ≡ true) xs (λ y h. ground arith)
      (elem_self xs),
)

pub All_at {κ} : (P : ℕ → Type κ) (xs : List ℕ) (k : ℕ) → All P xs → elem k xs ≡ true → P k
All_at P [] k h e = cc
All_at P (x ∷ xs) k h e = elim (Bool-cases (x == k)) [
  | inl same ↦ subst P (==→eq x k same) h.0
  | inr other ↦ All_at P xs k h.1 (rw other at e)
]
