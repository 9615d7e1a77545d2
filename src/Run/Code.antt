-- ===== src/Run/Code.antt =====
-- llm_agent/contracts/domain/runs/status_code.py
use python_agent_with_idp.Prelude.{
  ℕ, ◌≡◌, Bool, true, false, List, [], ◌∷◌, String, arith, ◌==◌, ◌||◌,
}

pub data RunStatusCode : Type 0 where
  created enqueued running succeeded failed cancelled timed_out retrying : RunStatusCode

-- RunStatusCode.value
unfoldable pub value : RunStatusCode → ℕ
value created = 1
value enqueued = 2
value running = 3
value succeeded = 4
value failed = 5
value cancelled = 6
value timed_out = 7
value retrying = 8

-- RunStatusCode.name
unfoldable pub name : RunStatusCode → String
name created = "CREATED"
name enqueued = "ENQUEUED"
name running = "RUNNING"
name succeeded = "SUCCEEDED"
name failed = "FAILED"
name cancelled = "CANCELLED"
name timed_out = "TIMED_OUT"
name retrying = "RETRYING"

-- Members of the enumeration are equal when their values are.
unfoldable pub same : RunStatusCode → RunStatusCode → Bool
unfolding value
same a b = value a == value b

-- code in codes
unfoldable pub member : RunStatusCode → List RunStatusCode → Bool
unfolding same
member code [] = false
member code (c ∷ codes) = same c code || member code codes

abbrev pub terminal_run_statuses : List RunStatusCode
terminal_run_statuses = succeeded ∷ failed ∷ cancelled ∷ []

pub same→eq : (a b : RunStatusCode) → same a b ≡ true → a ≡ b
unfolding same
same→eq a b h = ground arith
