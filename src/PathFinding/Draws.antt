-- ===== src/PathFinding/Draws.antt =====
-- The random choices, by rules for total correctness that hold of every draw.
use python_agent_with_idp.Prelude.{
  ℕ, zero, suc, ◌%◌, ◌≤◌, ◌≡◌, refl, Bool, true, false, List, [], ◌∷◌, All, length, ltb,
  if◌then◌else◌, arith,
}
use python_agent_with_idp.Exec.{Outcome, returned, Exec, return, lift, ◌>>=◌}
use python_agent_with_idp.Exec.Returns.{Returns, Returns-bind, Returns-return}
use python_agent_with_idp.PathFinding.{Host, Arithmetic}
use python_agent_with_idp.PathFinding.Random.{
  draw, randint, chance, pick, sample_from, sample, monotonic_ns,
}
use python_agent_with_idp.PathFinding.Population.{repeat, for_each}

abbrev pub Anywhere : Host → Type 0
Anywhere s = Unit

-- The action returns from every state, and `Q` holds of what it returns.
abbrev pub Gives : {A : Type 0} → Exec Host A → (A → Type 0) → Type 0
Gives m Q = Returns Anywhere m (λ a s. Q a)

module _ {A : Type 0} {Q : A → Type 0} where
  pub Gives-return : (a : A) → Q a → Gives (return a) Q
  Gives-return a h = Returns-return a (λ s _. h)

module _ {A B : Type 0} {R : A → Type 0} {Q : B → Type 0} where
  pub Gives-bind :
      (m : Exec Host A) (f : A → Exec Host B)
      → Gives m R
      → ((a : A) → R a → Gives (f a) Q)
      → Gives (m >>= f) Q
  Gives-bind m f km kf = Returns-bind m f km (λ a. record { run = λ s h. (kf a h).run s tt })

module _ {A : Type 0} {Q : A → Type 0} where
  pub Gives-if :
      (b : Bool) (m n : Exec Host A)
      → (b ≡ true → Gives m Q)
      → (b ≡ false → Gives n Q)
      → Gives (if b then m else n) Q
  Gives-if true m n km kn = km refl
  Gives-if false m n km kn = kn refl

pub lift-Gives :
    {A : Type 0} (r : Outcome A) → (a : A) × (r ≡ returned a) → Gives (lift r) (λ a. Unit)
lift-Gives r h = record { run = λ s _. (h.0, h.1, tt) }

pub draw-Gives : Gives draw (λ d. Unit)
unfolding draw
draw-Gives = record { run = λ s h. (s.draws 0, refl, tt) }

pub monotonic_ns-Gives : Gives monotonic_ns (λ t. Unit)
unfolding monotonic_ns
monotonic_ns-Gives = record { run = λ s h. (s.times 0, refl, tt) }

-- randint stays within its bounds.
pub randint-Gives :
    (low high : ℕ) → low ≤ high → Gives (randint low high) (λ n. (low ≤ n) × (n ≤ high))
unfolding randint
randint-Gives low high le =
    Gives-if (ltb high low) _ _ (λ empty. absurd (ground arith))
      (λ _. Gives-bind _ _ draw-Gives (λ d _. Gives-return _ (omega arith, omega (arith, le))))

pub chance-Gives :
    {F : Type 0} (ops : Arithmetic F) (rate : F) → Gives (chance ops rate) (λ b. Unit)
unfolding chance
chance-Gives ops rate = Gives-bind _ _ draw-Gives (λ d _. Gives-return _ tt)

module _ {A : Type 0} (P : A → Type 0) where
  pub repeat-Gives :
      (n : ℕ) (m : Exec Host A) → Gives m P → Gives (repeat n m) (λ xs. (length xs ≡ n) × All P xs)
  unfolding repeat
  repeat-Gives zero m km = Gives-return [] (refl, tt)
  repeat-Gives (suc n) m km = Gives-bind _ _ km (λ x hx.
      Gives-bind _ _ (repeat-Gives n m km)
        (λ xs hxs. Gives-return (x ∷ xs) (omega (arith, hxs.0), (hx, hxs.1))))

  pick-All :
      (i : ℕ) (x : A) (xs : List A)
      → P x
      → All P xs
      → P (pick i x xs).0 × All P (pick i x xs).1 × (length (pick i x xs).1 ≡ length xs)
  unfolding pick
  pick-All i x [] hx h = (hx, tt, refl)
  pick-All zero x (y ∷ ys) hx h = (hx, h, refl)
  pick-All (suc i) x (y ∷ ys) hx h =
      let (hz, hr, e) = pick-All i y ys h.0 h.1 in (hz, (hx, hr), omega (arith, e))

  sample_from-Gives :
      (xs : List A) (k : ℕ)
      → All P xs
      → k ≤ length xs
      → Gives (sample_from xs k) (λ ys. (length ys ≡ k) × All P ys)
  unfolding sample_from
  sample_from-Gives xs zero h le = Gives-return [] (refl, tt)
  sample_from-Gives [] (suc k) h le = absurd (omega (arith, le))
  sample_from-Gives (x ∷ xs) (suc k) h le = Gives-bind _ _ draw-Gives (λ d _.
      let (hp, hr, e) = pick-All (d % suc (length xs)) x xs h.0 h.1 in
      Gives-bind _ _
        (sample_from-Gives (pick (d % suc (length xs)) x xs).1 k hr (omega (arith, le, e)))
        (λ ys hys. Gives-return _ (omega (arith, hys.0), (hp, hys.1))))

  -- As many items as asked for, each one of the population's.
  pub sample-Gives :
      (xs : List A) (k : ℕ)
      → All P xs
      → k ≤ length xs
      → Gives (sample xs k) (λ ys. (length ys ≡ k) × All P ys)
  unfolding sample
  sample-Gives xs k h le =
      Gives-if (ltb (length xs) k) _ _ (λ few. absurd (ground arith))
        (λ _. sample_from-Gives xs k h le)

module _ {A B : Type 0} (P : A → Type 0) (Q : B → Type 0) where
  pub for_each-Gives :
      (f : A → Exec Host B) (xs : List A)
      → ((x : A) → P x → Gives (f x) Q)
      → All P xs
      → Gives (for_each f xs) (λ ys. (length ys ≡ length xs) × All Q ys)
  unfolding for_each
  for_each-Gives f [] kf h = Gives-return [] (refl, tt)
  for_each-Gives f (x ∷ xs) kf h = Gives-bind _ _ (kf x h.0) (λ y hy.
      Gives-bind _ _ (for_each-Gives f xs kf h.1)
        (λ ys hys. Gives-return (y ∷ ys) (omega (arith, hys.0), (hy, hys.1))))
