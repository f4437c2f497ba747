-- ===== src/Domain/Lifecycle.antt =====
-- What one method of a record may do to it, and the shape of the two state machines of
-- services/api/domain.py.
use smarttest_platform.Base.{◌+◌, ◌≡◌, true, false, some, ok, arith}
use smarttest_platform.Base.Int.{ℤ}
use smarttest_platform.Base.Text.{Text, text_eq}
use smarttest_platform.Protocol.{Time, ResultEnvelope}
use smarttest_platform.Domain.State.{
  RunState, AttemptState, run_terminal, run_allows, attempt_allows, attempt_terminal,
  attempt_leased, transition_run, transition_attempt,
}
use smarttest_platform.Domain.Records.{
  RunRecord, AttemptRecord, run_with_state, attempt_with_state, with_result, claimed,
  with_heartbeat, lost,
}

-- A change of state of a run: along an edge, one version on, the request as it was.
pub record RunStep (r r' : RunRecord) : Type 0 where
  pub allowed : run_allows r.state r'.state ≡ true
  pub version : r'.state_version ≡ r.state_version + 1
  pub id : r'.id ≡ r.id
  pub engine : r'.engine ≡ r.engine
  pub parameters : r'.parameters ≡ r.parameters
  pub created_at : r'.created_at ≡ r.created_at

-- What never changes in an attempt.
pub record SameAttempt (a a' : AttemptRecord) : Type 0 where
  pub id : a'.id ≡ a.id
  pub run_id : a'.run_id ≡ a.run_id
  pub created_at : a'.created_at ≡ a.created_at

-- A change of an attempt: along an edge and one version on, or a renewed lease.
pub data AttemptStep (a a' : AttemptRecord) : Type 0 where
  moved :
      SameAttempt a a'
      → attempt_allows a.state a'.state ≡ true
      → a'.state_version ≡ a.state_version + 1
      → AttemptStep a a'
  renewed :
      SameAttempt a a'
      → attempt_leased a.state ≡ true
      → a'.state ≡ a.state
      → a'.state_version ≡ a.state_version
      → AttemptStep a a'

pub run_with_state-RunStep :
    (r : RunRecord) (t : RunState) (now : Time) {r' : RunRecord}
    → run_with_state r t now ≡ ok r'
    → RunStep r r' × (r'.state ≡ t)
unfolding run_with_state transition_run
run_with_state-RunStep r t now h = ground arith

pub attempt_with_state-step :
    (a : AttemptRecord) (t : AttemptState) (now : Time) {a' : AttemptRecord}
    → attempt_with_state a t now ≡ ok a'
    → AttemptStep a a' × (a'.state ≡ t)
unfolding attempt_with_state transition_attempt
attempt_with_state-step a t now h =
    (AttemptStep.moved (ground arith) (ground arith) (ground arith), ground arith)

pub with_result-step :
    (a : AttemptRecord) (t : AttemptState) (result : ResultEnvelope) (now : Time)
    {a' : AttemptRecord}
    → with_result a t result now ≡ ok a'
    → AttemptStep a a' × (a'.state ≡ t) × (a'.outcome ≡ some result.outcome)
unfolding with_result transition_attempt
with_result-step a t result now h =
    (AttemptStep.moved (ground arith) (ground arith) (ground arith), ground arith, ground arith)

pub claimed-step :
    (a : AttemptRecord) (runner : Text) (n : ℤ) (now read : Time) {a' : AttemptRecord}
    → claimed a runner n now read ≡ ok a'
    → AttemptStep a a' × (a'.state ≡ AttemptState.claimed)
unfolding claimed attempt_with_state transition_attempt
claimed-step a runner n now read h =
    (AttemptStep.moved (ground arith) (ground arith) (ground arith), ground arith)

pub with_heartbeat-step :
    (a : AttemptRecord) (runner : Text) (n : ℤ) (now : Time) {a' : AttemptRecord}
    → with_heartbeat a runner n now ≡ ok a'
    → AttemptStep a a'
unfolding with_heartbeat
with_heartbeat-step a runner n now h =
    AttemptStep.renewed (ground arith) (ground arith) (ground arith) (ground arith)

pub lost-step :
    (a : AttemptRecord) (now read : Time) {a' : AttemptRecord}
    → lost a now read ≡ ok a'
    → AttemptStep a a' × (a'.state ≡ AttemptState.lost)
unfolding lost attempt_with_state transition_attempt
lost-step a now read h =
    (AttemptStep.moved (ground arith) (ground arith) (ground arith), ground arith)

pub terminal_stuck : (s t : RunState) → run_terminal s ≡ true → run_allows s t ≡ false
terminal_stuck s t h = ground arith

pub attempt_terminal_stuck :
    (s t : AttemptState) → attempt_terminal s ≡ true → attempt_allows s t ≡ false
attempt_terminal_stuck s t h = ground arith

pub terminal_not_leased : (s : AttemptState) → attempt_terminal s ≡ true → attempt_leased s ≡ false
terminal_not_leased s h = ground arith

pub AttemptStep-same : {a a' : AttemptRecord} → AttemptStep a a' → SameAttempt a a'
AttemptStep-same (AttemptStep.moved h _ _) = h
AttemptStep-same (AttemptStep.renewed h _ _ _) = h
