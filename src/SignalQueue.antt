-- ===== src/SignalQueue.antt =====
-- llm_agent/local_runtime/run_signal_queue/queue.py: `InMemoryRunSignalQueue`, an event that
-- wakes a worker.
use python_agent_with_idp.Prelude.{
  ℕ, Bool, true, false, Option, none, some, ◌||◌, leb, ◌==◌, if◌then◌else◌,
}

pub record SignalQueue : Type 0 where
  pub event : Bool

abbrev pub new_signal_queue : SignalQueue
new_signal_queue = record { event = false }

abbrev pub default_timeout : ℕ
default_timeout = 5

-- `timeout or self._default_timeout`: no timeout, and a timeout of 0, mean the default one
unfoldable pub effective_timeout : Option ℕ → ℕ
effective_timeout none = default_timeout
effective_timeout (some timeout) = if timeout == 0 then default_timeout else timeout

-- `wait` returns once the event is set, or the timeout has passed.
unfoldable pub may_return : SignalQueue → Option ℕ → ℕ → Bool
unfolding effective_timeout
may_return queue timeout waited = queue.event || leb (effective_timeout timeout) waited

-- What it leaves behind, in both cases: the `finally` clears the event.
unfoldable pub wait : SignalQueue → SignalQueue
wait queue = record queue { event = false }

unfoldable pub notify : SignalQueue → SignalQueue
notify queue = record queue { event = true }
