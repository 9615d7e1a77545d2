-- ===== src/Writes.antt =====
-- What the statements that the stores are made of do: rules for `Leads`.
use python_agent_with_idp.Prelude.{◌≡◌, refl, String, Option, none, some}
use python_agent_with_idp.Dict
use python_agent_with_idp.Dict.{Dict}
use python_agent_with_idp.Json.{Fields}
use python_agent_with_idp.Run.Status.{Uuid, RunStatus}
use python_agent_with_idp.Exec.{Exec, ◌>>=◌, ◌>>◌}
use python_agent_with_idp.Exec.Leads.{Leads, Keeps}
use python_agent_with_idp.Runtime.{
  InMemoryRuntime, run_at, run_at_there, run_at_missing, set_run, read_clock, init_run_stream,
  append_event, notify,
}

-- The state after `self._runs[run_id] = run_status`.
abbrev pub write : InMemoryRuntime → Uuid → RunStatus → InMemoryRuntime
write s run_id run_status = record s {
  internal_run_storage = Dict.put s.internal_run_storage run_id run_status;
}

-- A predicate on the stored runs alone.
abbrev pub OnRuns : (Dict RunStatus → Type 0) → InMemoryRuntime → Type 0
OnRuns P s = P s.internal_run_storage

-- `P`, and what the run `run_id` is at the moment.
abbrev pub At : (InMemoryRuntime → Type 0) → Uuid → RunStatus → InMemoryRuntime → Type 0
At P run_id cur s = P s × (Dict.get s.internal_run_storage run_id ≡ some cur)

-- What events, readings of the clock and signals do not disturb.
pub record IsPassive (P : InMemoryRuntime → Type 0) : Type 0 where
  pub appends :
      (run_id : Uuid) (event_type : String) (payload : Fields)
      → Keeps P (append_event run_id event_type payload)
  pub reads : Keeps P read_clock
  pub notifies : Keeps P notify

pub OnRuns-IsPassive : (P : Dict RunStatus → Type 0) → IsPassive (OnRuns P)
unfolding append_event read_clock notify
OnRuns-IsPassive P = record {
  appends = λ run_id event_type payload. record { after = λ s h. h };
  reads = record { after = λ s h. h };
  notifies = record { after = λ s h. h };
}

pub At-IsPassive :
    (P : InMemoryRuntime → Type 0) (run_id : Uuid) (cur : RunStatus)
    → IsPassive P
    → IsPassive (At P run_id cur)
unfolding append_event read_clock notify
At-IsPassive P run_id cur p = record {
  appends = λ j event_type payload. record {
    after = λ s h. ((p.appends j event_type payload).after s h.0, h.1);
  };
  reads = record { after = λ s h. (p.reads.after s h.0, h.1) };
  notifies = record { after = λ s h. (p.notifies.after s h.0, h.1) };
}

pub forget :
    (P : InMemoryRuntime → Type 0) (run_id : Uuid) (cur : RunStatus) (s : InMemoryRuntime)
    → At P run_id cur s
    → P s
forget P run_id cur s h = h.0

module _ (P : InMemoryRuntime → Type 0) where
  pub run_at-Keeps : (run_id : Uuid) → Keeps P (run_at run_id)
  unfolding run_at
  run_at-Keeps run_id = record { after = λ s h. h }

pub init_run_stream-Keeps :
    (P : Dict RunStatus → Type 0) (run_id : Uuid) → Keeps (OnRuns P) (init_run_stream run_id)
unfolding init_run_stream
init_run_stream-Keeps P run_id = record { after = λ s h. h }

module _ (P Q : InMemoryRuntime → Type 0) where
  pub Leads-set_run :
      (run_id : Uuid) (new : RunStatus)
      → ((s : InMemoryRuntime) → P s → Q (write s run_id new))
      → Leads P (set_run run_id new) Q
  unfolding set_run
  Leads-set_run run_id new closed = record { after = closed }

-- The write does not raise, so what follows it may rely on it.
module _ {A : Type 0} (P R Q : InMemoryRuntime → Type 0) where
  pub Leads-set_run_then :
      (run_id : Uuid) (new : RunStatus) (m : Exec InMemoryRuntime A)
      → ((s : InMemoryRuntime) → P s → R (write s run_id new))
      → Leads R m Q
      → Leads P (set_run run_id new >> m) Q
  unfolding set_run ◌>>=◌
  Leads-set_run_then run_id new m closed k = record {
    after = λ s h. k.after (write s run_id new) (closed s h);
  }

-- What follows `self._runs[run_id]` knows the record that it has read.
module _ {A : Type 0} (P Q : InMemoryRuntime → Type 0) where
  run_at_leads :
      (run_id : Uuid) (f : RunStatus → Exec InMemoryRuntime A)
      → ((cur : RunStatus) → Leads (At P run_id cur) (f cur) Q)
      → ((s : InMemoryRuntime) → P s → Q s)
      → (s : InMemoryRuntime) → P s
      → (o : Option RunStatus) → Dict.get s.internal_run_storage run_id ≡ o
      → Q ((run_at run_id >>= f) s).1
  unfolding ◌>>=◌
  run_at_leads run_id f kf le s h none e = rw (run_at_missing run_id s e) (le s h)
  run_at_leads run_id f kf le s h (some cur) e =
      rw (run_at_there run_id s e) ((kf cur).after s (h, e))

  pub Leads-run_at :
      (run_id : Uuid) (f : RunStatus → Exec InMemoryRuntime A)
      → ((cur : RunStatus) → Leads (At P run_id cur) (f cur) Q)
      → ((s : InMemoryRuntime) → P s → Q s)
      → Leads P (run_at run_id >>= f) Q
  Leads-run_at run_id f kf le = record {
    after = λ s h. run_at_leads run_id f kf le s h (Dict.get s.internal_run_storage run_id) refl;
  }
