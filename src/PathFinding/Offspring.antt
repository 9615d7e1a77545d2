-- ===== src/PathFinding/Offspring.antt =====
-- Well-formed sequences, and the operators on populations of them.
use python_agent_with_idp.Prelude.{
  ℕ, zero, suc, ◌+◌, ◌-◌, ◌≤◌, ◌<◌, ◌≡◌, refl, ◌&&◌, List, [], ◌∷◌, ◌++◌, All, All-append, length,
  length-append, drop, ltb, leb, if◌then◌else◌, arith, Bool-cases, inl, inr,
}
use python_agent_with_idp.PathFinding.{Arithmetic, Throttles}
use python_agent_with_idp.PathFinding.Population.{
  take, delete, generate_sequence, generate_initial_population, crossover, mutate_throttle, mutate,
}
use python_agent_with_idp.PathFinding.Draws.{
  Gives, Gives-return, Gives-bind, Gives-if, randint-Gives, chance-Gives, repeat-Gives,
  for_each-Gives,
}

abbrev pub InRange : ℕ × ℕ → ℕ → Type 0
InRange range throttle = (range.0 ≤ throttle) × (throttle ≤ range.1)

-- A sequence that is not empty, not longer than `limit`, and in range throughout.
pub record IsSequence (limit : ℕ) (range : ℕ × ℕ) (throttles : Throttles) : Type 0 where
  pub nonempty : 1 ≤ length throttles
  pub short : length throttles ≤ limit
  pub ranged : All (InRange range) throttles

module _ (limit : ℕ) (range : ℕ × ℕ) where
  generate_sequence-IsSequence :
      1 ≤ limit → range.0 ≤ range.1 → Gives (generate_sequence limit range) (IsSequence limit range)
  unfolding generate_sequence
  generate_sequence-IsSequence some_room some_range =
      Gives-bind _ _ (randint-Gives 1 limit some_room) (λ n hn. record {
        run = λ s h.
            let (xs, e, hx) =
              (repeat-Gives (InRange range) n _ (randint-Gives range.0 range.1 some_range)).run s
                h in
            (
              xs,
              e,
              record {
                nonempty = omega (arith, hn, hx.0);
                short = omega (arith, hn, hx.0);
                ranged = hx.1;
              },
            );
      })

  -- The initial population has the size that is asked for, and its sequences are well formed: not
  -- empty, not longer than the maximum, and in the range of the throttles. This asks for a
  -- maximum of at least 1 and a range that is not empty.
  pub generate_initial_population-IsSequence :
      (pop_size : ℕ)
      → 1 ≤ limit
      → range.0 ≤ range.1
      → Gives
          (generate_initial_population pop_size limit range)
          (λ population. (length population ≡ pop_size) × All (IsSequence limit range) population)
  unfolding generate_initial_population
  generate_initial_population-IsSequence pop_size some_room some_range =
      repeat-Gives (IsSequence limit range) pop_size _
        (generate_sequence-IsSequence some_room some_range)

pub All-take : {A : Type 0} (P : A → Type 0) (n : ℕ) (xs : List A) → All P xs → All P (take n xs)
All-take P zero xs h = tt
All-take P (suc n) [] h = tt
All-take P (suc n) (x ∷ xs) h = (h.0, All-take P n xs h.1)

All-drop : {A : Type 0} (P : A → Type 0) (n : ℕ) (xs : List A) → All P xs → All P (drop n xs)
All-drop P zero xs h = h
All-drop P (suc n) [] h = tt
All-drop P (suc n) (x ∷ xs) h = All-drop P n xs h.1

All-delete : {A : Type 0} (P : A → Type 0) (i : ℕ) (xs : List A) → All P xs → All P (delete i xs)
All-delete P i [] h = tt
All-delete P zero (x ∷ xs) h = h.1
All-delete P (suc i) (x ∷ xs) h = (h.0, All-delete P i xs h.1)

length-take : {A : Type 0} (n : ℕ) (xs : List A) → n ≤ length xs → length (take n xs) ≡ n
length-take zero xs le = refl
length-take (suc n) [] le = absurd (omega (arith, le))
length-take (suc n) (x ∷ xs) le = omega (arith, length-take n xs (omega (arith, le)))

length-delete :
    {A : Type 0} (i : ℕ) (xs : List A) → i < length xs → length (delete i xs) + 1 ≡ length xs
length-delete i [] lt = absurd (omega (arith, lt))
length-delete zero (x ∷ xs) lt = omega arith
length-delete (suc i) (x ∷ xs) lt = omega (arith, length-delete i xs (omega (arith, lt)))

module _ (limit : ℕ) (range : ℕ × ℕ) where
  trimmed-IsSequence :
      (child : Throttles)
      → 1 ≤ limit
      → 1 ≤ length child
      → All (InRange range) child
      → IsSequence limit range (if leb limit (length child) then take limit child else child)
  trimmed-IsSequence child some_room some_child ranged =
      elim (Bool-cases (leb limit (length child))) [
        | inl long ↦
            let e = length-take limit child (ground arith) in
            rw long (record {
              nonempty = omega (arith, e, some_room);
              short = omega (arith, e);
              ranged = All-take _ limit child ranged;
            })
        | inr fits ↦
            rw fits (record { nonempty = some_child; short = ground arith; ranged = ranged })
      ]

  -- The crossover of two well-formed sequences returns a well-formed one, whatever is drawn, if
  -- the maximum is at least 1.
  pub crossover-IsSequence :
      (parent1 parent2 : Throttles)
      → 1 ≤ limit
      → IsSequence limit range parent1
      → IsSequence limit range parent2
      → Gives (crossover parent1 parent2 limit) (IsSequence limit range)
  unfolding crossover
  crossover-IsSequence parent1 parent2 some_room h1 h2 =
      Gives-bind _ _ (randint-Gives 1 (length parent1) h1.nonempty) (λ p hp.
        Gives-bind _ _ (randint-Gives 1 (length parent2) h2.nonempty) (λ q hq. Gives-return _ (
          trimmed-IsSequence (take p parent1 ++ drop q parent2) some_room
            (omega (
              arith,
              length-append (take p parent1) (drop q parent2),
              length-take p parent1 hp.1,
              hp.0,
            ))
            (All-append (InRange range) (take p parent1) (drop q parent2)
              (All-take _ p parent1 h1.ranged) (All-drop _ q parent2 h2.ranged)))))

module _ {F : Type 0} (ops : Arithmetic F) (limit : ℕ) (range : ℕ × ℕ) where
  mutate_throttle-InRange :
      (rate : F) (throttle : ℕ)
      → range.0 ≤ range.1
      → InRange range throttle
      → Gives (mutate_throttle ops range rate throttle) (InRange range)
  unfolding mutate_throttle
  mutate_throttle-InRange rate throttle some_range h =
      Gives-bind _ _ (chance-Gives ops rate) (λ mutated _.
        Gives-if mutated _ _ (λ _. randint-Gives range.0 range.1 some_range)
          (λ _. Gives-return throttle h))

  deleted-IsSequence :
      (i : ℕ) (throttles : Throttles)
      → 1 < length throttles
      → i ≤ length throttles - 1
      → IsSequence limit range throttles
      → IsSequence limit range (delete i throttles)
  deleted-IsSequence i throttles two le h =
      let e = length-delete i throttles (omega (arith, le, two)) in
      record {
        nonempty = omega (arith, e, two);
        short = omega (arith, e, h.short);
        ranged = All-delete _ i throttles h.ranged;
      }

  -- The mutation of a well-formed sequence returns a well-formed one, whatever is drawn, if the
  -- range of the throttles is not empty.
  pub mutate-IsSequence :
      (rate : F) (throttles : Throttles)
      → range.0 ≤ range.1
      → IsSequence limit range throttles
      → Gives (mutate ops throttles range rate) (IsSequence limit range)
  unfolding mutate
  mutate-IsSequence rate throttles some_range h =
      Gives-bind _ _
        (for_each-Gives (InRange range) (InRange range) (mutate_throttle ops range rate) throttles
          (λ x hx. mutate_throttle-InRange rate x some_range hx) h.ranged)
        (λ changed hc.
          let hs : IsSequence limit range changed = record {
            nonempty = omega (arith, hc.0, h.nonempty);
            short = omega (arith, hc.0, h.short);
            ranged = hc.1;
          } in
          Gives-bind _ _ (chance-Gives ops rate) (λ shortened _.
            Gives-if (shortened && ltb 1 (length changed)) _ _
              (λ both.
                Gives-bind _ _ (randint-Gives 0 (length changed - 1) (omega arith))
                  (λ i hi. Gives-return _ (deleted-IsSequence i changed (ground arith) hi.1 hs)))
              (λ _. Gives-return changed hs)))
