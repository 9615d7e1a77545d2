-- ===== src/Worker/Checkpoints.antt =====
-- The executors and their checkpoints.
use python_agent_with_idp.Prelude.{
  ℕ, zero, suc, ◌≤◌, ◌<◌, ◌≡◌, ◌+◌, refl, ap, String, true, false, ◌⊎◌, inl, inr, Bool-cases, All,
  arith,
}
use native.Mathlib.Numerals.{unary_clauses}
use python_agent_with_idp.Run.Status.{Uuid}
use python_agent_with_idp.Exec.{returned, ◌>>=◌}
use python_agent_with_idp.Exec.Leads.{Keeps, Keeps-return, Keeps-gets, Keeps-if, Keeps-bind}
use python_agent_with_idp.Runtime.{InMemoryRuntime}
use python_agent_with_idp.Worker.{Worker, current_is_cancelled}
use python_agent_with_idp.Worker.Executor.{
  sleep, Sleep, Stop, completed, cancelled_error, sleep_steps, random_sleep_execute,
}
use python_agent_with_idp.Worker.Sound.{OfRuntime, IsKept, OnNewIn, sleep-Keeps}

-- The worker after `k` more steps have slept, the next of them number `i`.
abbrev pub slept : String → (ℕ → Sleep) → ℕ → ℕ → Worker → Worker
slept worker_id during i zero w = w
slept worker_id during i (suc k) w =
    slept worker_id during (suc i) k (sleep worker_id (during i).activities w)

-- Why the loop stops: all the steps are done or the next checkpoint sees a cancellation, and no
-- sleep was interrupted; or the last sleep was, and it only.
abbrev pub Reason : String → (ℕ → Sleep) → ℕ → ℕ → ℕ → Worker → Stop → Type 0
Reason worker_id during steps i k w completed =
    ((k ≡ steps) ⊎ (current_is_cancelled (slept worker_id during i k w) ≡ true))
    × ((j : ℕ) → j < k → (during (i + j)).interrupted ≡ false)
Reason worker_id during steps i k w cancelled_error =
    (last : ℕ) × (k ≡ suc last)
    × ((during (i + last)).interrupted ≡ true)
    × ((j : ℕ) → j < last → (during (i + j)).interrupted ≡ false)

-- That the loop stops in or after exactly `k` of `steps` steps, with no cancellation seen by the
-- checkpoints of these.
pub record StopsAfter (worker_id : String) (during : ℕ → Sleep) (steps i k : ℕ) (w : Worker)
    (stop : Stop) : Type 0 where
  pub bounded : k ≤ steps
  pub unseen : (j : ℕ) → j < k → current_is_cancelled (slept worker_id during i j w) ≡ false
  pub reason : Reason worker_id during steps i k w stop

module _ (worker_id : String) (during : ℕ → Sleep) where
  also_before :
      (i k : ℕ)
      → (during i).interrupted ≡ false
      → ((j : ℕ) → j < k → (during (suc i + j)).interrupted ≡ false)
      → (j : ℕ) → j < suc k
      → (during (i + j)).interrupted ≡ false
  also_before i k first h zero lt = simp unary_clauses first
  also_before i k first h (suc j) lt =
      let shifted : i + suc j ≡ suc i + j = omega arith in rw shifted (h j (omega (arith, lt)))

  one_more-Reason :
      (steps i k : ℕ) (w : Worker) (stop : Stop)
      → (during i).interrupted ≡ false
      → Reason worker_id during steps (suc i) k (sleep worker_id (during i).activities w) stop
      → Reason worker_id during (suc steps) i (suc k) w stop
  one_more-Reason steps i k w completed first (why, before) =
      (elim why [ inl all ↦ inl (ap suc all) | inr seen ↦ inr seen ], also_before i k first before)
  one_more-Reason steps i k w cancelled_error first (last, e, stopped, before) =
      let shifted : i + suc last ≡ suc i + last = omega arith in
      (suc last, ap suc e, rw shifted stopped, also_before i last first before)

  one_more :
      (steps i k : ℕ) (w : Worker) (stop : Stop)
      → current_is_cancelled w ≡ false
      → (during i).interrupted ≡ false
      → StopsAfter worker_id during steps (suc i) k (sleep worker_id (during i).activities w) stop
      → StopsAfter worker_id during (suc steps) i (suc k) w stop
  one_more steps i k w stop going first h = record {
    bounded = omega (arith, h.bounded);
    unseen = λ j lt. one_more_unseen j lt;
    reason = one_more-Reason steps i k w stop first h.reason;
  }
    where
      one_more_unseen :
          (j : ℕ) → j < suc k → current_is_cancelled (slept worker_id during i j w) ≡ false
      one_more_unseen zero lt = going
      one_more_unseen (suc j) lt = h.unseen j (omega (arith, lt))

  no_step :
      (steps i : ℕ) (w : Worker)
      → (0 ≡ steps) ⊎ (current_is_cancelled w ≡ true)
      → StopsAfter worker_id during steps i 0 w completed
  no_step steps i w why = record {
    bounded = omega arith;
    unseen = λ j lt. absurd (omega (arith, lt));
    reason = (why, λ j lt. absurd (omega (arith, lt)));
  }

  broken_step :
      (steps i : ℕ) (w : Worker)
      → current_is_cancelled w ≡ false
      → (during i).interrupted ≡ true
      → StopsAfter worker_id during (suc steps) i 1 w cancelled_error
  broken_step steps i w going stopped = record {
    bounded = omega arith;
    unseen = λ j lt. broken_unseen j lt;
    reason = (0, refl, simp unary_clauses stopped, λ j lt. absurd (omega (arith, lt)));
  }
    where
      broken_unseen : (j : ℕ) → j < 1 → current_is_cancelled (slept worker_id during i j w) ≡ false
      broken_unseen zero lt = going
      broken_unseen (suc j) lt = absurd (omega (arith, lt))

  sleep_steps-StopsAfter :
      (steps i : ℕ) (w : Worker)
      → (k : ℕ) × (stop : Stop) × StopsAfter worker_id during steps i k w stop
        × (sleep_steps worker_id during steps i w ≡ (returned stop, slept worker_id during i k w))
  unfolding sleep_steps ◌>>=◌
  sleep_steps-StopsAfter zero i w = (0, completed, no_step 0 i w (inl refl), refl)
  sleep_steps-StopsAfter (suc steps) i w = elim (Bool-cases (current_is_cancelled w)) [
    | inl seen ↦ (0, completed, no_step (suc steps) i w (inr seen), rw seen refl)
    | inr going ↦ elim (Bool-cases (during i).interrupted) [
      | inl stopped ↦
          (1, cancelled_error, broken_step steps i w going stopped, rw (going, stopped) refl)
      | inr first ↦
          let (k, stop, stops, e) =
            sleep_steps-StopsAfter steps (suc i) (sleep worker_id (during i).activities w) in
          (suc k, stop, one_more steps i k w stop going first stops, rw (going, first) e)
    ]
  ]

  -- RandomSleepRunExecutor stops after at most five steps, whatever other tasks do while they
  -- sleep, with what they did to the worker. It returns where none of its sleeps is
  -- interrupted: at the first checkpoint that sees the context cancelled, or after the fifth
  -- step. It raises asyncio.CancelledError at the first sleep that a cancellation of the task
  -- interrupts, where no checkpoint up to it sees the context cancelled.
  pub random_sleep_execute-StopsAfter :
      (w : Worker)
      → (k : ℕ) × (stop : Stop) × StopsAfter worker_id during 5 0 k w stop
        × (random_sleep_execute worker_id during w ≡ (returned stop, slept worker_id during 0 k w))
  unfolding random_sleep_execute
  random_sleep_execute-StopsAfter w = sleep_steps-StopsAfter 5 0 w

module _ (F : Uuid → Type 0) (P : InMemoryRuntime → Type 0) (kept : IsKept F P)
    (worker_id : String) where
  sleep_steps-Keeps :
      (during : ℕ → Sleep) (steps i : ℕ)
      → ((j : ℕ) → All (OnNewIn F) (during j).activities)
      → Keeps (OfRuntime P) (sleep_steps worker_id during steps i)
  unfolding sleep_steps
  sleep_steps-Keeps during zero i f = Keeps-return completed
  sleep_steps-Keeps during (suc steps) i f = Keeps-bind _ _ (Keeps-gets current_is_cancelled) (λ c.
      Keeps-if c _ _ (Keeps-return completed) (
        Keeps-bind _ _
          (record { after = λ w h. sleep-Keeps F P kept worker_id (during i).activities w (f i) h })
          (λ _.
            Keeps-if (during i).interrupted _ _ (Keeps-return cancelled_error)
              (sleep_steps-Keeps during steps (suc i) f))))

  pub random_sleep_execute-Keeps :
      (during : ℕ → Sleep)
      → ((j : ℕ) → All (OnNewIn F) (during j).activities)
      → Keeps (OfRuntime P) (random_sleep_execute worker_id during)
  unfolding random_sleep_execute
  random_sleep_execute-Keeps during f = sleep_steps-Keeps during 5 0 f
