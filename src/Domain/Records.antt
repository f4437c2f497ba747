-- ===== src/Domain/Records.antt =====
-- The records of services/api/domain.py and their methods. A reading of the clock is an argument.
use smarttest_platform.Base.{
  ℕ, ◌+◌, ◌*◌, Bool, true, not, ◌||◌, Option, none, some, Result, ok, bind, check, ◌==◌, ltb, leb,
  length, opt_beq,
}
use smarttest_platform.Base.Exec.{value_error, invalid_transition}
use smarttest_platform.Base.Int.{ℤ, is_nonpositive, to_nat}
use smarttest_platform.Base.Text.{Text, text, strip, text_eq}
use smarttest_platform.Protocol.{Uuid, Time, Json, Engine, EventType, ResultOutcome, ResultEnvelope}
use smarttest_platform.Domain.State.{
  RunState, AttemptState, transition_run, transition_attempt, attempt_leased,
}

pub record RunRecord : Type 0 where
  pub id : Uuid
  pub engine : Engine
  pub parameters : Json
  pub state : RunState
  pub created_at : Time
  pub updated_at : Time
  pub state_version : ℕ

pub record AttemptRecord : Type 0 where
  pub id : Uuid
  pub run_id : Uuid
  pub state : AttemptState
  pub created_at : Time
  pub updated_at : Time
  pub state_version : ℕ
  pub outcome : Option ResultOutcome
  pub duration_ms : Option ℕ
  pub summary : Option Json
  pub completed_at : Option Time
  pub runner_id : Option Text
  pub heartbeat_at : Option Time
  pub lease_expires_at : Option Time

-- `AttemptRecord(...)` with its defaults
abbrev pub new_attempt : Uuid → Uuid → AttemptState → Time → AttemptRecord
new_attempt id run_id state now = record {
  id = id;
  run_id = run_id;
  state = state;
  created_at = now;
  updated_at = now;
  state_version = 0;
  outcome = none;
  duration_ms = none;
  summary = none;
  completed_at = none;
  runner_id = none;
  heartbeat_at = none;
  lease_expires_at = none;
}

pub record EventRecord : Type 0 where
  pub cursor : ℕ
  pub event_id : Uuid
  pub run_id : Uuid
  pub attempt_id : Uuid
  pub engine : Engine
  pub seq : ℕ
  pub occurred_at : Time
  pub type : EventType
  pub payload : Json

pub record ArtifactRecord : Type 0 where
  pub id : Uuid
  pub run_id : Uuid
  pub attempt_id : Uuid
  pub kind : Text
  pub name : Text
  pub content_type : Text
  pub size_bytes : ℕ
  pub storage_key : Text
  pub created_at : Time

-- timedelta(seconds=n)
abbrev pub seconds : ℤ → ℕ
seconds n = to_nat n * 1000000

-- RunRecord.with_state
unfoldable pub run_with_state : RunRecord → RunState → Time → Result RunRecord
run_with_state self state now = bind (transition_run self.state state) λ next_state.
    ok
      (record self { state = next_state; updated_at = now; state_version = self.state_version + 1 })

-- AttemptRecord.with_state
unfoldable pub attempt_with_state : AttemptRecord → AttemptState → Time → Result AttemptRecord
attempt_with_state self state now = bind (transition_attempt self.state state) λ next_state.
    ok
      (record self { state = next_state; updated_at = now; state_version = self.state_version + 1 })

unfoldable pub with_result :
    AttemptRecord → AttemptState → ResultEnvelope → Time → Result AttemptRecord
with_result self state result now =
    bind
      (check (not (result.attempt_id == self.id) || not (result.run_id == self.run_id)) value_error)
      λ _. bind (transition_attempt self.state state) λ next_state. ok (record self {
        state = next_state;
        updated_at = now;
        state_version = self.state_version + 1;
        outcome = some result.outcome;
        duration_ms = some result.duration_ms;
        summary = some result.summary;
        completed_at = some result.completed_at;
      })

abbrev pub bad_runner_id : Text → Bool
bad_runner_id identity = (length identity == 0) || ltb 255 (length identity)

-- AttemptRecord.claimed; `read` is the reading of the clock in `with_state`
unfoldable pub claimed : AttemptRecord → Text → ℤ → Time → Time → Result AttemptRecord
claimed self runner_id lease_seconds now read =
    let identity = strip runner_id in
    bind (check (bad_runner_id identity) value_error) λ _.
      bind (check (is_nonpositive lease_seconds) value_error) λ _.
        bind (attempt_with_state self AttemptState.claimed read) λ next. ok (record next {
          runner_id = some identity;
          heartbeat_at = some now;
          lease_expires_at = some (now + seconds lease_seconds);
        })

-- `self.lease_expires_at is None or self.lease_expires_at <= now`
abbrev pub lease_over : Option Time → Time → Bool
lease_over none now = true
lease_over (some t) now = leb t now

unfoldable pub with_heartbeat : AttemptRecord → Text → ℤ → Time → Result AttemptRecord
with_heartbeat self runner_id lease_seconds now =
    bind (check (not (attempt_leased self.state)) invalid_transition) λ _.
      bind (check (not (opt_beq self.runner_id (some runner_id))) value_error) λ _.
        bind (check (lease_over self.lease_expires_at now) invalid_transition) λ _.
          bind (check (is_nonpositive lease_seconds) value_error) λ _. ok (record self {
            updated_at = now;
            heartbeat_at = some now;
            lease_expires_at = some (now + seconds lease_seconds);
          })

unfoldable pub lost : AttemptRecord → Time → Time → Result AttemptRecord
lost self now read = bind (attempt_with_state self AttemptState.lost read) λ next. ok (record next {
  outcome = some ResultOutcome.infra_error;
  summary = some (text "{\"reason\":\"runner_lease_expired\"}");
  completed_at = some now;
})
