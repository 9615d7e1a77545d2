-- ===== src/PathFinding/Random.antt =====
-- What path_finders/genetic.py uses of the standard library's `random` and `time`. Each call
-- takes the next draw of the host; every result that the library may return is that of some draw.
use python_agent_with_idp.Prelude.{
  ℕ, zero, suc, ◌+◌, ◌-◌, ◌%◌, Bool, List, [], ◌∷◌, length, ltb, if◌then◌else◌,
}
use python_agent_with_idp.Error.{other}
use python_agent_with_idp.Exec.{returned, Exec, return, raise, ◌>>=◌}
use python_agent_with_idp.PathFinding.{Host, Arithmetic}

abbrev next_of : (ℕ → ℕ) → ℕ → ℕ
next_of readings n = readings (suc n)

unfoldable pub draw : Exec Host ℕ
draw s = (returned (s.draws 0), record s { draws = next_of s.draws })

-- time.monotonic_ns()
unfoldable pub monotonic_ns : Exec Host ℕ
monotonic_ns s = (returned (s.times 0), record s { times = next_of s.times })

-- random.randint(low, high)
unfoldable pub randint : ℕ → ℕ → Exec Host ℕ
randint low high =
    if ltb high low
    then raise (other "empty range in randrange()")
    else do d ← draw; return (low + d % suc (high - low))

-- random.random() < rate
unfoldable pub chance : {F : Type 0} → Arithmetic F → F → Exec Host Bool
chance ops rate = do d ← draw; return (ops.lt (ops.random d) rate)

module _ {A : Type 0} where
  -- The item at a position, with the others.
  unfoldable pub pick : ℕ → A → List A → A × List A
  pick i x [] = (x, [])
  pick zero x (y ∷ ys) = (x, y ∷ ys)
  pick (suc i) x (y ∷ ys) = let (z, rest) = pick i y ys in (z, x ∷ rest)

  -- `k` items at distinct positions.
  unfoldable pub sample_from : List A → ℕ → Exec Host (List A)
  unfolding pick
  sample_from xs zero = return []
  sample_from [] (suc k) = return []
  sample_from (x ∷ xs) (suc k) = do
    d ← draw
    let picked : A × List A = pick (d % suc (length xs)) x xs
    items ← sample_from picked.1 k
    return (picked.0 ∷ items)

  -- random.sample(population, k)
  unfoldable pub sample : List A → ℕ → Exec Host (List A)
  unfolding sample_from
  sample population k =
      if ltb (length population) k
      then raise (other "Sample larger than population or is negative")
      else sample_from population k
