-- ===== src/EventLog/IsOrdered.antt =====
-- What it is for the event log to be in order, and its methods on such a log.
use python_agent_with_idp.Prelude.{
  ◌||◌, ==-refl, ==-ne, sym, length-append, inl, inr, Bool-cases, ==→eq, ℕ, zero, suc, ◌+◌, ◌<◌,
  ◌≡◌, ◌≢◌, refl, String, true, Option, none, some, List, [], ◌∷◌, ◌++◌, length, drop, ◌==◌, arith,
  ap,
}
use python_agent_with_idp.Dict
use python_agent_with_idp.Dict.{Dict}
use python_agent_with_idp.Dict.Laws.{get-put, contains-put}
use python_agent_with_idp.Json.{Fields}
use python_agent_with_idp.Run.Status.{Uuid, Timestamp, RunEvent}
use python_agent_with_idp.Exec.{returned}
use python_agent_with_idp.EventLog.{
  EventLog, init_run_stream, append, append_numbered, events_after, list,
}

-- The events of run `run_id` are numbered from `n` on.
abbrev pub NumberedFrom : Uuid → ℕ → List RunEvent → Type 0
NumberedFrom run_id n [] = Unit
NumberedFrom run_id n (e ∷ es) =
    (e.run_id ≡ run_id) × (e.sequence_nr ≡ n) × NumberedFrom run_id (suc n) es

abbrev pub StreamOk : Uuid → Option (List RunEvent) → Option ℕ → Type 0
StreamOk run_id none counter = counter ≡ none
StreamOk run_id (some events) none = ⊥
StreamOk run_id (some events) (some n) = NumberedFrom run_id 1 events × (n ≡ suc (length events))

pub record IsOrdered (log : EventLog) : Type 0 where
  pub stream :
      (run_id : Uuid)
      → StreamOk run_id
          (Dict.get log.internal_run_events run_id)
          (Dict.get log.next_sequence_nr run_id)

NumberedFrom-append :
    (run_id : Uuid) (n : ℕ) (es : List RunEvent) (e : RunEvent)
    → NumberedFrom run_id n es
    → e.run_id ≡ run_id
    → e.sequence_nr ≡ n + length es
    → NumberedFrom run_id n (es ++ e ∷ [])
NumberedFrom-append run_id n [] e h i q = (i, omega arith, tt)
NumberedFrom-append run_id n (x ∷ es) e h i q =
    (h.0, h.1, NumberedFrom-append run_id (suc n) es e h.2 i (omega arith))

pub init_run_stream-IsOrdered :
    (run_id : Uuid) (log : EventLog) → IsOrdered log → IsOrdered (init_run_stream run_id log).1
unfolding init_run_stream
init_run_stream-IsOrdered run_id log h =
    elim (Bool-cases (Dict.contains log.internal_run_events run_id)) [
      | inl old ↦ rw old h
      | inr new ↦ rw new (record { stream = λ j. simp get-put (ground (arith, h.stream j)) })
    ]

append-IsOrdered_at :
    (run_id : Uuid) (event_type : String) (payload : Fields) (t : Timestamp) (log : EventLog)
    (events : Option (List RunEvent)) (counter : Option ℕ)
    → IsOrdered log
    → StreamOk run_id events counter
    → IsOrdered (append_numbered run_id event_type payload t events counter log).1
unfolding append_numbered
append-IsOrdered_at run_id event_type payload t log none counter h ok = h
append-IsOrdered_at run_id event_type payload t log (some events) none h ok = h
append-IsOrdered_at run_id event_type payload t log (some events) (some n) h ok = record {
  stream = λ j. simp get-put (elim (Bool-cases (run_id == j)) [
    | inl here ↦
        rw (here, ← ==→eq run_id j here)
          (
            NumberedFrom-append run_id 1 events _ ok.0 refl (omega (arith, ok.1)),
            omega (
              arith,
              ok.1,
              length-append events (
                  record {
                    run_id = run_id;
                    sequence_nr = n;
                    event_type = event_type;
                    payload = payload;
                    timestamp_utc = t;
                  }
                  ∷ []),
            ),
          )
    | inr there ↦ rw there (h.stream j)
  ]);
}

-- `append` keeps an ordered log in order, whether it returns or raises.
pub append-IsOrdered :
    (run_id : Uuid) (event_type : String) (payload : Fields) (t : Timestamp) (log : EventLog)
    → IsOrdered log
    → IsOrdered (append run_id event_type payload t log).1
unfolding append
append-IsOrdered run_id event_type payload t log h =
    append-IsOrdered_at run_id event_type payload t log _ _ h (h.stream run_id)

events_after_below :
    (run_id : Uuid) (n k : ℕ) (es : List RunEvent)
    → NumberedFrom run_id n es
    → k < n
    → events_after k es ≡ es
unfolding events_after
events_after_below run_id n k [] h lt = refl
events_after_below run_id n k (e ∷ es) h lt = ground (arith, events_after_below run_id (suc n) k es)

events_after-eq-drop :
    (run_id : Uuid) (n k m : ℕ) (es : List RunEvent)
    → NumberedFrom run_id (suc n) es
    → m ≡ n + k
    → events_after m es ≡ drop k es
unfolding events_after
events_after-eq-drop run_id n zero m es h q = events_after_below run_id (suc n) m es h (omega arith)
events_after-eq-drop run_id n (suc k) m [] h q = refl
events_after-eq-drop run_id n (suc k) m (e ∷ es) h q =
    let rest = events_after-eq-drop run_id (suc n) k m es h.2 (omega arith) in ground arith

pub numbered_of :
    (run_id : Uuid) (events : List RunEvent) (counter : Option ℕ)
    → StreamOk run_id (some events) counter
    → NumberedFrom run_id 1 events × (counter ≡ some (suc (length events)))
numbered_of run_id events none ok = absurd ok
numbered_of run_id events (some n) ok = (ok.0, ap some ok.1)

-- For a stream of an ordered log, `list` after sequence number k leaves out exactly the first k
-- events, and `list` without a number gives all of them.
pub list-eq-drop :
    (log : EventLog) (run_id : Uuid) (k : ℕ) (events : List RunEvent)
    → IsOrdered log
    → Dict.get log.internal_run_events run_id ≡ some events
    → (list log run_id (some k) ≡ returned (drop k events))
      × (list log run_id none ≡ returned events)
unfolding list
list-eq-drop log run_id k events h g =
    let (numbered, counted) = numbered_of run_id events _ (rw g at (h.stream run_id)) in
    (
      rw (g, list) (ap returned (events_after-eq-drop run_id 0 k k events numbered (omega arith))),
      rw (g, list),
    )

pub get_of_list :
    (log : EventLog) (run_id : Uuid) (events : List RunEvent)
    → list log run_id none ≡ returned events
    → Dict.get log.internal_run_events run_id ≡ some events
unfolding list
get_of_list log run_id events l = ground arith

abbrev pub numbered_event : Uuid → String → Fields → Timestamp → ℕ → RunEvent
numbered_event run_id event_type payload t n = record {
  run_id = run_id;
  sequence_nr = n;
  event_type = event_type;
  payload = payload;
  timestamp_utc = t;
}

-- What `append` does to a stream that is there.
pub append_there :
    (run_id : Uuid) (event_type : String) (payload : Fields) (t : Timestamp) (log : EventLog)
    (events : List RunEvent)
    → IsOrdered log
    → Dict.get log.internal_run_events run_id ≡ some events
    → append run_id event_type payload t log ≡ (
      returned (numbered_event run_id event_type payload t (length events + 1)),
      record {
        internal_run_events =
            Dict.put log.internal_run_events run_id
              (events ++ numbered_event run_id event_type payload t (length events + 1) ∷ []);
        next_sequence_nr = Dict.put log.next_sequence_nr run_id (length events + 2);
      },
    )
unfolding append
append_there run_id event_type payload t log events h g =
    let c = (numbered_of run_id events _ (rw g at (h.stream run_id))).1 in ground arith

-- In an ordered log, appending to a stream returns the event numbered one past the last, and a
-- reader then sees the old events with this one after them; any other stream reads as before.
pub list-append :
    (run_id : Uuid) (event_type : String) (payload : Fields) (t : Timestamp) (log : EventLog)
    (events : List RunEvent) (j : Uuid) (after : Option ℕ)
    → IsOrdered log
    → list log run_id none ≡ returned events
    → j ≢ run_id
    → let e = numbered_event run_id event_type payload t (length events + 1) in
      let (reply, log') = append run_id event_type payload t log in
      (reply ≡ returned e)
      × (list log' run_id none ≡ returned (events ++ e ∷ []))
      × (list log' j after ≡ list log j after)
unfolding list
list-append run_id event_type payload t log events j after h l ne =
    rw (append_there run_id event_type payload t log events h (get_of_list log run_id events l))
      (refl, simp (get-put, ==-refl), simp (get-put, ==-ne run_id j (λ e. ne (sym e))))

contains-append_at :
    (run_id : Uuid) (event_type : String) (payload : Fields) (t : Timestamp) (log : EventLog)
    (events : Option (List RunEvent)) (counter : Option ℕ) (j : Uuid)
    → Dict.contains log.internal_run_events j ≡ true
    → Dict.contains
        (append_numbered run_id event_type payload t events counter log).1.internal_run_events
        j
      ≡ true
unfolding append_numbered
contains-append_at run_id event_type payload t log none counter j h = h
contains-append_at run_id event_type payload t log (some events) none j h = h
contains-append_at run_id event_type payload t log (some events) (some n) j h =
    rw contains-put (ground arith)

-- No stream is ever removed, and `init_run_stream` provides the one that it names.
pub contains-append :
    (run_id : Uuid) (event_type : String) (payload : Fields) (t : Timestamp) (log : EventLog)
    (j : Uuid)
    → Dict.contains log.internal_run_events j ≡ true
    → Dict.contains (append run_id event_type payload t log).1.internal_run_events j ≡ true
unfolding append
contains-append run_id event_type payload t log j h =
    contains-append_at run_id event_type payload t log (Dict.get log.internal_run_events run_id)
      (Dict.get log.next_sequence_nr run_id) j h

pub contains-init_run_stream :
    (run_id : Uuid) (log : EventLog) (j : Uuid)
    → ((run_id == j) || Dict.contains log.internal_run_events j) ≡ true
    → Dict.contains (init_run_stream run_id log).1.internal_run_events j ≡ true
unfolding init_run_stream
contains-init_run_stream run_id log j h =
    elim (Bool-cases (Dict.contains log.internal_run_events run_id)) [
      | inl old ↦ rw old (elim (Bool-cases (run_id == j)) [
        | inl same ↦ rw (← ==→eq run_id j same) old
        | inr other ↦ rw other at h
      ])
      | inr new ↦ rw new (rw contains-put (ground arith))
    ]
