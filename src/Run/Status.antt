-- ===== src/Run/Status.antt =====
-- llm_agent/contracts/domain/runs/status.py, event.py, and the request and claim records.
use python_agent_with_idp.Prelude.{ℕ, Bool, Option, List, String}
use python_agent_with_idp.Json.{Fields}
use python_agent_with_idp.Run.Code.{RunStatusCode}

-- A UUID is its 128-bit number.
abbrev pub Uuid : Type 0
Uuid = ℕ

-- Instants are microseconds since the epoch, the resolution of `datetime`.
abbrev pub Timestamp : Type 0
Timestamp = ℕ

pub record RunStatus : Type 0 where
  pub id : Uuid
  pub status : RunStatusCode
  pub result : Option Fields
  pub error : Option String
  pub claimed_worker : Option String
  pub claim_expiration_unix_ts : Option Timestamp
  pub retry_count : Option ℕ
  pub cancel_requested : Bool

pub record RunEvent : Type 0 where
  pub run_id : Uuid
  pub sequence_nr : ℕ
  pub event_type : String
  pub payload : Fields
  pub timestamp_utc : Timestamp

pub record RunRequest : Type 0 where
  pub prompt : String
  pub history : List String
  pub user_id : String

pub data ClaimType : Type 0 where
  enqueued running_lost_claim : ClaimType

pub record ClaimedRun : Type 0 where
  pub id : Uuid
  pub claim_type : ClaimType
  pub run_status : RunStatus
