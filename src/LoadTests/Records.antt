-- ===== src/LoadTests/Records.antt =====
-- The records of services/api/load_test_domain.py. A finite float is a fraction.
use smarttest_platform.Base.{ℕ, Bool, true, false, List, Option}
use smarttest_platform.Base.Int.{ℤ}
use smarttest_platform.Base.Text.{Text}
use smarttest_platform.Protocol.{Uuid, Time, Json}

pub data LoadTestMode : Type 0 where
  counted timed : LoadTestMode

pub data LoadTestTrafficMode : Type 0 where
  requests scenario : LoadTestTrafficMode

pub data LoadTestRunStatus : Type 0 where
  running succeeded failed : LoadTestRunStatus

-- `status == LoadTestRunStatus.RUNNING`
abbrev pub is_running : LoadTestRunStatus → Bool
is_running LoadTestRunStatus.running = true
is_running _ = false

pub data Float : Type 0 where
  fraction : (numerator : ℤ) (denominator : ℕ) → Float
  not_finite : Float

-- What a validated LoadTestTarget holds.
pub record LoadTestTarget : Type 0 where
  pub name : Text
  pub method : Text
  pub url : Text
  pub headers : Json
  pub query : Json
  pub body : Json
  pub expected_statuses : List ℕ
  pub extractors : List (Text × Text)
  pub think_time_ms : ℕ

pub record LoadTestRecord : Type 0 where
  pub id : Uuid
  pub project_id : Uuid
  pub name : Text
  pub description : Text
  pub targets : List LoadTestTarget
  pub mode : LoadTestMode
  pub request_count : ℕ
  pub duration_seconds : ℕ
  pub concurrency : ℕ
  pub interval_ms : ℕ
  pub timeout_seconds : Float
  pub state_version : ℕ
  pub created_at : Time
  pub updated_at : Time
  pub environment_id : Option Uuid
  pub traffic_mode : LoadTestTrafficMode
  pub initial_variables : Json
  pub stop_on_failure : Bool
  pub category : Text

pub record LoadTestRunRecord : Type 0 where
  pub id : Uuid
  pub load_test_id : Uuid
  pub status : LoadTestRunStatus
  pub mode : LoadTestMode
  pub started_at : Time
  pub finished_at : Option Time
  pub metrics : Json
  pub error_message : Option Text

pub record LoadTestResponseRecord : Type 0 where
  pub id : Uuid
  pub run_id : Uuid
  pub sequence : ℕ
  pub target : Text
  pub successful : Bool
  pub status : Option ℕ
  pub latency_ms : Float
  pub error : Option Text
  pub body : Option Text
  pub body_kind : Text
  pub truncated : Bool
  pub body_bytes : ℕ
  pub created_at : Time
