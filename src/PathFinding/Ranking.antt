-- ===== src/PathFinding/Ranking.antt =====
-- Sorting by score, and the least score.
use python_agent_with_idp.Prelude.{
  ℕ, zero, suc, ◌≡◌, refl, ◌∙◌, ◌⊎◌, inl, inr, Bool, true, false, ◌||◌, List, [], ◌∷◌, map, All,
  length, if◌then◌else◌, arith, ==-refl, Bool-cases,
}
use python_agent_with_idp.PathFinding.{Arithmetic, Throttles, FitnessScore}
use python_agent_with_idp.PathFinding.Population.{take, zip, insert, sorted, select_best_parents}
use python_agent_with_idp.PathFinding.Search.{same_score, min_from, at_index}
use python_agent_with_idp.PathFinding.Draws.{Gives, Gives-return, Gives-if}
use python_agent_with_idp.PathFinding.Offspring.{All-take}

-- A number is identical to itself.
abbrev pub IsReflexive : {F : Type 0} → Arithmetic F → Type 0
IsReflexive {F} ops = (x : F) → ops.same x x ≡ true

take-length :
    {A : Type 0} (n : ℕ) (xs : List A) → (length (take n xs) ≡ n) ⊎ (length (take n xs) ≡ length xs)
take-length zero xs = inl refl
take-length (suc n) [] = inr refl
take-length (suc n) (x ∷ xs) = elim (take-length n xs) [
  | inl e ↦ inl (omega (arith, e))
  | inr e ↦ inr (omega (arith, e))
]

pub map-All :
    {A B : Type 0} (Q : B → Type 0) (f : A → B) (xs : List A)
    → All (λ x. Q (f x)) xs
    → All Q (map f xs)
map-All Q f [] h = tt
map-All Q f (x ∷ xs) h = (h.0, map-All Q f xs h.1)

pub length-map : {A B : Type 0} (f : A → B) (xs : List A) → length (map f xs) ≡ length xs
length-map f [] = refl
length-map f (x ∷ xs) = omega (arith, length-map f xs)

module _ {F : Type 0} (ops : Arithmetic F) where
  -- The scored sequence satisfies `P`.
  abbrev Scored : (Throttles → Type 0) → Throttles × FitnessScore F → Type 0
  Scored P p = P p.0

  zip-All :
      (P : Throttles → Type 0) (xs : List Throttles) (ys : List (FitnessScore F))
      → All P xs
      → length ys ≡ length xs
      → All (Scored P) (zip xs ys) × (length (zip xs ys) ≡ length xs)
  zip-All P [] ys h e = (tt, refl)
  zip-All P (x ∷ xs) [] h e = absurd (omega (arith, e))
  zip-All P (x ∷ xs) (y ∷ ys) h e =
      let (rest, n) = zip-All P xs ys h.1 (omega (arith, e)) in ((h.0, rest), omega (arith, n))

  insert-All :
      (P : Throttles → Type 0) (p : Throttles × FitnessScore F)
      (qs : List (Throttles × FitnessScore F))
      → Scored P p
      → All (Scored P) qs
      → All (Scored P) (insert ops p qs) × (length (insert ops p qs) ≡ suc (length qs))
  unfolding insert
  insert-All P p [] hp h = ((hp, tt), refl)
  insert-All P p (q ∷ qs) hp h = elim (Bool-cases (ops.lt q.1.score p.1.score)) [
    | inl less ↦ let (rest, n) = insert-All P p qs hp h.1 in rw less ((h.0, rest), omega (arith, n))
    | inr other ↦ rw other ((hp, h), refl)
  ]

  sorted-All :
      (P : Throttles → Type 0) (ps : List (Throttles × FitnessScore F))
      → All (Scored P) ps
      → All (Scored P) (sorted ops ps) × (length (sorted ops ps) ≡ length ps)
  unfolding sorted
  sorted-All P [] h = (tt, refl)
  sorted-All P (p ∷ ps) h =
      let (rest, n) = sorted-All P ps h.1 in
      let (all, m) = insert-All P p (sorted ops ps) h.0 rest in (all, omega (arith, n, m))

  -- The best parents are of the population: as many as asked for, or all.
  pub select_best_parents-All :
      (P : Throttles → Type 0) (population : List Throttles) (scores : List (FitnessScore F))
      (n : ℕ)
      → All P population
      → length scores ≡ length population
      → All P (select_best_parents ops population scores n)
        × ((length (select_best_parents ops population scores n) ≡ n)
            ⊎ (length (select_best_parents ops population scores n) ≡ length population))
  unfolding select_best_parents
  select_best_parents-All P population scores n h e =
      let (zipped, m) = zip-All P population scores h e in
      let (all, k) = sorted-All P (zip population scores) zipped in
      let best = take n (sorted ops (zip population scores)) in
      let l = length-map (λ (p : Throttles × FitnessScore F). p.0) best in
      (
        map-All P (λ p. p.0) best (All-take (Scored P) n (sorted ops (zip population scores)) all),
        elim (take-length n (sorted ops (zip population scores))) [
          | inl as_asked ↦ inl (l ∙ as_asked)
          | inr all_of_them ↦ inr (l ∙ all_of_them ∙ k ∙ m)
        ],
      )

  same_score_refl : IsReflexive ops → (a : FitnessScore F) → same_score ops a a ≡ true
  unfolding same_score
  same_score_refl same a =
      rw (same a.score, same a.distance_diff, same a.speed_penalty, ==-refl a.length_penalty) refl

  later : (b c : Bool) → c ≡ true → (b || c) ≡ true
  later b c h = ground arith

  over : (b c d : Bool) → (b || d) ≡ true → (b || (c || d)) ≡ true
  over b c d h = ground arith

  -- Whether the score is among others.
  abbrev occurs : FitnessScore F → List (FitnessScore F) → Bool
  occurs best [] = false
  occurs best (y ∷ ys) = same_score ops y best || occurs best ys

  occurs_sooner :
      (c : Bool) (best x b : FitnessScore F) (xs : List (FitnessScore F))
      → occurs best ((if c then x else b) ∷ xs) ≡ true
      → occurs best (b ∷ x ∷ xs) ≡ true
  occurs_sooner true best x b xs h = later (same_score ops b best) (occurs best (x ∷ xs)) h
  occurs_sooner false best x b xs h =
      over (same_score ops b best) (same_score ops x best) (occurs best xs) h

  -- The least score is one of the scores.
  pub min_from-occurs :
      IsReflexive ops
      → (b : FitnessScore F) (xs : List (FitnessScore F))
      → occurs (min_from ops b xs) (b ∷ xs) ≡ true
  unfolding min_from
  min_from-occurs same b [] = rw (same_score_refl same b) refl
  min_from-occurs same b (x ∷ xs) =
      let c = ops.lt x.score b.score in
      occurs_sooner c (min_from ops (if c then x else b) xs) x b xs
        (min_from-occurs same (if c then x else b) xs)

  pub at_index-Gives :
      (P : Throttles → Type 0) (best : FitnessScore F) (xs : List Throttles)
      (ys : List (FitnessScore F))
      → All P xs
      → length ys ≡ length xs
      → occurs best ys ≡ true
      → Gives (at_index ops best xs ys) P
  unfolding at_index
  at_index-Gives P best [] [] h e o = cc
  at_index-Gives P best [] (y ∷ ys) h e o = absurd (omega (arith, e))
  at_index-Gives P best (x ∷ xs) [] h e o = absurd (omega (arith, e))
  at_index-Gives P best (x ∷ xs) (y ∷ ys) h e o =
      Gives-if (same_score ops y best) _ _ (λ here. Gives-return x h.0)
        (λ there. at_index-Gives P best xs ys h.1 (omega (arith, e)) (rw there at o))
