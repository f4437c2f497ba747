-- ===== src/Protocol.antt =====
-- The protocol models of packages/protocol/models.py that the execution core reads.
-- An identifier (UUID) is a number, a datetime a number of microseconds, and a JSON document its
-- canonical text (sorted keys, compact separators), so that equal documents are equal texts.
use smarttest_platform.Base.{
  ℕ, ◌≡◌, refl, sym, ap, ◌∙◌, Bool, true, false, Option, List, ◌↔◌, Eq, ◌==◌, ==_iff, if◌then◌else◌,
}
use smarttest_platform.Base.Text.{Text, text}

abbrev pub Uuid : Type 0
Uuid = ℕ

abbrev pub Time : Type 0
Time = ℕ

abbrev pub Json : Type 0
Json = Text

pub data Engine : Type 0 where
  http pytest playwright : Engine

abbrev pub engine_beq : Engine → Engine → Bool
engine_beq Engine.http Engine.http = true
engine_beq Engine.pytest Engine.pytest = true
engine_beq Engine.playwright Engine.playwright = true
engine_beq _ _ = false

pub engine_beq_iff : (a b : Engine) → (engine_beq a b ≡ true) ↔ (a ≡ b)
engine_beq_iff Engine.http Engine.http = (λ h. refl, λ h. refl)
engine_beq_iff Engine.pytest Engine.pytest = (λ h. refl, λ h. refl)
engine_beq_iff Engine.playwright Engine.playwright = (λ h. refl, λ h. refl)
engine_beq_iff _ _ = (λ h. cc, λ h. cc)

instance abbrev pub engine_eq : Eq Engine
engine_eq = record { beq = engine_beq; beq_iff = engine_beq_iff }

pub data EventType : Type 0 where
  started progress log assertion extraction screenshot error heartbeat artifact finished : EventType

-- The place of a member in the enumeration.
abbrev event_index : EventType → ℕ
event_index EventType.started = 0
event_index EventType.progress = 1
event_index EventType.log = 2
event_index EventType.assertion = 3
event_index EventType.extraction = 4
event_index EventType.screenshot = 5
event_index EventType.error = 6
event_index EventType.heartbeat = 7
event_index EventType.artifact = 8
event_index EventType.finished = 9

abbrev event_at : ℕ → EventType
event_at n =
    if n == 0
    then EventType.started
    else if n == 1
    then EventType.progress
    else if n == 2
    then EventType.log
    else if n == 3
    then EventType.assertion
    else if n == 4
    then EventType.extraction
    else if n == 5
    then EventType.screenshot
    else if n == 6
    then EventType.error
    else if n == 7
    then EventType.heartbeat
    else if n == 8
    then EventType.artifact
    else EventType.finished

event_at-event_index : (t : EventType) → event_at (event_index t) ≡ t
event_at-event_index EventType.started = refl
event_at-event_index _ = refl

abbrev pub event_type_beq : EventType → EventType → Bool
event_type_beq a b = event_index a == event_index b

pub event_type_beq_iff : (a b : EventType) → (event_type_beq a b ≡ true) ↔ (a ≡ b)
event_type_beq_iff a b = (
  λ h. sym (event_at-event_index a) ∙ ap event_at ((==_iff _ _).0 h) ∙ event_at-event_index b,
  λ h. (==_iff _ _).1 (ap event_index h),
)

instance abbrev pub event_type_eq : Eq EventType
event_type_eq = record { beq = event_type_beq; beq_iff = event_type_beq_iff }

pub data ResultOutcome : Type 0 where
  succeeded failed cancelled timed_out infra_error : ResultOutcome

abbrev pub outcome_index : ResultOutcome → ℕ
outcome_index ResultOutcome.succeeded = 0
outcome_index ResultOutcome.failed = 1
outcome_index ResultOutcome.cancelled = 2
outcome_index ResultOutcome.timed_out = 3
outcome_index ResultOutcome.infra_error = 4

abbrev pub outcome_beq : ResultOutcome → ResultOutcome → Bool
outcome_beq a b = outcome_index a == outcome_index b

-- `ResultOutcome.value`
abbrev pub outcome_value : ResultOutcome → Text
outcome_value ResultOutcome.succeeded = text "succeeded"
outcome_value ResultOutcome.failed = text "failed"
outcome_value ResultOutcome.cancelled = text "cancelled"
outcome_value ResultOutcome.timed_out = text "timed_out"
outcome_value ResultOutcome.infra_error = text "infra_error"

abbrev pub engine_value : Engine → Text
engine_value Engine.http = text "http"
engine_value Engine.pytest = text "pytest"
engine_value Engine.playwright = text "playwright"

pub record SecretReference : Type 0 where
  pub category : Text
  pub name : Text
  pub secret_ref : Uuid

-- What `decide_retry` reads of a request: whether it is a mapping, and `str` of its "method".
pub data Request : Type 0 where
  mapping : Option Text → Request
  not_a_mapping : Request

pub record HttpStep : Type 0 where
  pub name : Text
  pub request : Request
  pub required : Bool

pub record RetryPolicy : Type 0 where
  pub max_attempts : ℕ
  pub retry_on : List ResultOutcome
  pub backoff_seconds : ℕ
  pub max_backoff_seconds : ℕ
  pub allow_non_idempotent_http : Bool

pub record ExecutionPolicy : Type 0 where
  pub before_steps : List HttpStep
  pub after_steps : List HttpStep
  pub has_assertions : Bool
  pub has_extractions : Bool
  pub retry : RetryPolicy

pub record TaskEnvelope : Type 0 where
  pub run_id : Uuid
  pub attempt_id : Uuid
  pub engine : Engine
  pub task_id : Uuid
  pub tenant_id : Uuid
  pub project_id : Uuid
  pub idempotency_key : Text
  pub created_at : Time
  pub deadline : Time
  pub entrypoint : Text
  pub parameters : Json
  pub run_spec_id : Option Uuid
  pub source_ref : Option Text
  pub content_digest : Option Text
  pub environment_variables : Json
  -- parameters.get("request"), which is in the text of `parameters`
  pub request : Option Request
  pub environment_id : Option Uuid
  pub environment_revision : Option ℕ
  pub secret_references : List SecretReference
  pub execution_policy : ExecutionPolicy

pub record EventEnvelope : Type 0 where
  pub run_id : Uuid
  pub attempt_id : Uuid
  pub engine : Engine
  pub event_id : Uuid
  pub seq : ℕ
  pub occurred_at : Time
  pub type : EventType
  pub payload : Json

pub record ResultEnvelope : Type 0 where
  pub run_id : Uuid
  pub attempt_id : Uuid
  pub engine : Engine
  pub outcome : ResultOutcome
  pub completed_at : Time
  pub duration_ms : ℕ
  pub summary : Json
