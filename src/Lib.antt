-- ===== src/Lib.antt =====
-- The runs of the llm_agent service: how a prompt becomes a run, how the run is stored, claimed,
-- executed and cancelled, what clients read of it, and which requests reach the API at all.
--
-- The program. The composition root wires the application, and its lifespan starts and stops a worker.
-- Two middlewares stand around the API: one extracts the token of a request, the other asks the identity
-- provider's keys whether it is valid. The API (llm_agent/llm_agent/api) submits prompts to the run
-- orchestration service, which writes to the intake store and signals the workers. A worker
-- (llm_agent/agent_run_worker) waits for the signal, claims a run from the processing store, executes it
-- under a lease that a heartbeat task renews, and writes the outcome. In the local setup both sides
-- share one in-memory runtime (llm_agent/local_runtime): the dictionary of the runs, the event log and
-- the signal queue. The service knows the store and the queue by their protocols alone.
--
-- The files, and the code that they are about:
--   Prelude, Dict              helpers: native numbers and lists, Python's dict with UUID keys
--   Run, Error, Request        llm_agent/contracts/domain/runs, the exceptions, and
--                              llm_agent/llm_agent/domain/agent/runs
--   Exec                       methods that change an object and may raise, with rules for invariants
--                              (Exec/Leads) and for total correctness (Exec/Returns)
--   Policy                     llm_agent/llm_agent/domain/agent/runs/transition_rules.py and
--                              llm_agent/llm_agent/services/agent/transition_policy.py
--   EventLog, SignalQueue      llm_agent/local_runtime/event_log/in_memory.py and
--                              llm_agent/local_runtime/run_signal_queue/queue.py
--   Runtime, Writes            llm_agent/local_runtime/provider.py, and the statements on it
--   Transition, Processing     llm_agent/local_runtime/run_store/processing.py
--   Intake                     llm_agent/local_runtime/run_store/intake.py
--   Services                   llm_agent/llm_agent/services/agent/store.py,
--                              llm_agent/agent_run_worker/services/runs/processing_store.py and
--                              llm_agent/contracts/services: the protocols and their contracts
--   Orchestrator               llm_agent/llm_agent/services/agent/orchestrator.py
--   Api                        llm_agent/llm_agent/api/http/v1: the run routes, their data transfer
--                              objects and mappers
--   Worker                     llm_agent/agent_run_worker: execution context, lease scope, executors
--                              and consumer
--   PathFinding                llm_agent/llm_agent/domain/genetic_path, grid and game, the path
--                              finders of llm_agent/llm_agent/infrastructure/navigation, and the
--                              throttle route
--   Texts, Json                texts and JSON values with Python's operations on them
--   Authentication             llm_agent/llm_agent/infrastructure/authentication (Claims, Keys,
--                              Validator, Manager), llm_agent/llm_agent/infrastructure/execution_context
--                              (Extractors, Context) and llm_agent/llm_agent/api/http/middlewares, in
--                              the order of llm_agent/llm_agent/app.py (Middlewares)
--   Composition                llm_agent/llm_agent/di and its registrars, and (Lifespan)
--                              llm_agent/llm_agent/infrastructure/infra_setup
--   TokenScript                testing_payloads/get_keycloak_token.py
--   Lifecycle, Conformance     the specification of one run as a step relation, and that each method of
--                              the stores takes such steps only
--   Calls                      histories of the system, as lists of calls, and their invariants
--   Claiming                   what the methods of a worker promise
--   Examples                   the theorems at concrete runs
--
-- How the code is rendered. A method keeps its Python name in snake case; a private method loses its
-- underscore. A method of a store takes the runtime and gives back an outcome, returned or raised,
-- and the runtime that it leaves, since what was written before a `raise` stays written. The locks
-- of the stores are held over code that never suspends, so that a method is one step of the event
-- loop, and an interleaving is a list of calls. Where a task does suspend (an executor that sleeps, a
-- worker that waits), what the other tasks do meanwhile is a list of activities, a parameter.
--
-- A UUID is its 128-bit number; the one that uuid4 generates is an argument, and a theorem says so
-- where it must be new. The clock is the sequence of its coming readings, any numbers, in
-- microseconds. Loops run over the keys of a dictionary, over a list of rounds, or five times, by
-- structural recursion; no fuel is used. The generations of the genetic search are counted down from
-- their configured number. Floating-point numbers are a parameter, the record Arithmetic, and the
-- random draws are a sequence of any numbers, consumed in the order of the calls.
--
-- The container library svcs is the record Svcs, and what its documentation promises the record
-- IsDocumented. A task of asyncio is active, at a place where the loop can be suspended, ended or
-- cancelled, and to cancel an active one unwinds the consumer from that place. A sleep of an executor
-- may be interrupted by such a cancellation.
--
-- httpx, authlib, FastAPI's and starlette's reading of headers, and json.loads are the fields of the
-- record Libraries. What comes from the network or from a token may be any JSON value, so that the
-- TypeError, KeyError and AttributeError of an unexpected one are in the model; numbers in it are
-- natural. The two requests of one validation run without another request between them.
--
-- Not modelled: the exactness of floating-point time, the log messages, logging and process start-up,
-- the database configuration, and the clients of the tests, which are calls of libraries. Throttles
-- below zero are left out. FastAPI and pydantic parse and serialise outside the model; the cancellation
-- of a task from outside (asyncio.CancelledError) is modelled for the heartbeat task, for the task of
-- the consumer and for the sleeps of RandomSleepRunExecutor; the other executor sleeps in a task that is
-- not cancelled.
pub mod Prelude
pub mod Dict
pub mod Texts
pub mod Json
pub mod Run
pub mod Error
pub mod Exec
pub mod Policy
pub mod EventLog
pub mod Lifecycle
pub mod SignalQueue
pub mod Runtime
pub mod Writes
pub mod Request
pub mod Transition
pub mod Intake
pub mod Processing
pub mod Conformance
pub mod Orchestrator
pub mod Calls
pub mod Claiming
pub mod Worker
pub mod Api
pub mod PathFinding
pub mod Authentication
pub mod Composition
pub mod Services
pub mod TokenScript
pub mod Examples
