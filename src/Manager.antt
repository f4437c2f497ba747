-- ===== src/Manager.antt =====
-- services/runner_manager.py: one task from the claim of its run to the stored result.
-- The executor is a parameter: what it does is a tree of the events that it delivers, each with a
-- branch for the answer of the sink, and of the repository calls that others make meanwhile. No
-- other call comes between the end of the executor and the last write.
pub mod Rules
pub mod Runs
pub mod Returns
pub mod Closed
pub mod Identified
pub mod Executed
use smarttest_platform.Base.{
  ℕ, Bool, true, false, not, ◌||◌, Option, none, some, List, Result, ok, err, Error, pure, raise,
  raise_if, lift, ◌>>=◌, ◌>>◌, if◌then◌else◌, ◌==◌, [], modify, ◌∷◌, length,
}
use smarttest_platform.Base.Exec.{runner_identity_error, invalid_transition}
use smarttest_platform.Base.Int.{ℤ}
use smarttest_platform.Base.Text.{Text, text}
use smarttest_platform.Protocol.{
  Uuid, Time, Json, Engine, EventType, ResultOutcome, TaskEnvelope, EventEnvelope, ResultEnvelope,
  engine_beq, event_type_beq, outcome_beq,
}
use smarttest_platform.Domain.{RunState, AttemptState, ArtifactRecord, RunRecord, AttemptRecord}
use smarttest_platform.Repository.State.{Clock, Method, RunRepository}
use smarttest_platform.Repository.Attempts.{
  renew_attempt_lease, transition_attempt, list_attempts, get_attempt, complete_attempt,
  begin_attempt,
}
use smarttest_platform.Repository.Events.{append_event}
use smarttest_platform.Repository.Artifacts.{create_artifact}
use smarttest_platform.Repository.Calls.{Call, after}
use smarttest_platform.Repository.Runs.{transition, get}
use smarttest_platform.Retry.{RetryDecision, decide_retry}
use smarttest_platform.Domain.State.{run_is, attempt_is}

-- The behaviour of an executor.
pub data Execution : Type 0 where
  returns : ResultEnvelope → Execution
  raises : Error → Execution
  emits : EventEnvelope → (Result (Unit {0}) → Execution) → Execution
  meanwhile : Call → Execution → Execution

pub record RunnerManager : Type 0 where
  pub runner_id : Text
  pub lease_seconds : ℤ
  -- the checks and the upload of `ArtifactCollector.collect`, up to its call of the repository
  pub artifact_collector : Option (TaskEnvelope → EventEnvelope → Result ArtifactRecord)
  -- the payload of the event that `collect` returns
  pub artifact_payload : ArtifactRecord → Json
  pub retry_scheduler : Option (Uuid → ℕ → Result (Unit {0}))
  -- the repository calls that the completion callback makes before it returns or raises
  pub completion_callback : Option (Uuid → List Call)
  -- {"error_type": type(exc).__name__}
  pub error_summary : Error → Json
  -- {**summary, "cancel_requested": True}
  pub cancel_summary : Json → Json
  -- the readings of the clock in the n-th repository call, and of the envelopes made here
  pub clocks : ℕ → Clock
  pub now : Time

-- _RESULT_STATES
abbrev pub attempt_result : ResultOutcome → AttemptState
attempt_result ResultOutcome.succeeded = AttemptState.succeeded
attempt_result ResultOutcome.failed = AttemptState.failed
attempt_result ResultOutcome.cancelled = AttemptState.cancelled
attempt_result ResultOutcome.timed_out = AttemptState.timed_out
attempt_result ResultOutcome.infra_error = AttemptState.infra_error

abbrev pub run_result : ResultOutcome → RunState
run_result ResultOutcome.succeeded = RunState.succeeded
run_result ResultOutcome.failed = RunState.failed
run_result ResultOutcome.cancelled = RunState.cancelled
run_result ResultOutcome.timed_out = RunState.timed_out
run_result ResultOutcome.infra_error = RunState.infra_error

abbrev pub is_invalid_transition : Error → Bool
is_invalid_transition invalid_transition = true
is_invalid_transition _ = false

abbrev pub is_identity_error : Error → Bool
is_identity_error runner_identity_error = true
is_identity_error _ = false

abbrev handle : {A : Type 0} → Result A → (Error → Method A) → Method A
handle (ok a) handler s = (ok a, s)
handle (err e) handler s = handler e s

-- `try: m except ...: handler`
unfoldable pub rescue : {A : Type 0} → Method A → (Error → Method A) → Method A
rescue m handler s = let (r, s') = m s in handle r handler s'

module _ (sha256 : Text → Text) (self : RunnerManager) (task : TaskEnvelope) where
  abbrev pub envelope : ResultOutcome → Time → ℕ → Json → ResultEnvelope
  envelope outcome completed_at duration_ms summary = record {
    run_id = task.run_id;
    attempt_id = task.attempt_id;
    engine = task.engine;
    outcome = outcome;
    completed_at = completed_at;
    duration_ms = duration_ms;
    summary = summary;
  }

  abbrev pub infra_result : Error → ResultEnvelope
  infra_result exc = envelope ResultOutcome.infra_error self.now 0 (self.error_summary exc)

  abbrev pub cancelled_result : ResultEnvelope → ResultEnvelope
  cancelled_result original =
      envelope ResultOutcome.cancelled original.completed_at original.duration_ms
        (self.cancel_summary original.summary)

  abbrev pub lost_result : ResultEnvelope
  lost_result =
      envelope ResultOutcome.infra_error self.now 0 (text "{\"reason\":\"runner_lease_expired\"}")

  -- _validate_event, _validate_result
  abbrev pub misidentified : Uuid → Uuid → Engine → Bool
  misidentified run_id attempt_id engine =
      not (run_id == task.run_id)
      || (not (attempt_id == task.attempt_id) || not (engine_beq engine task.engine))

  abbrev pub is_artifact : EventType → Bool
  is_artifact type =
      event_type_beq type EventType.artifact || event_type_beq type EventType.screenshot

  -- `ArtifactCollector.collect` by the repository call that it ends with
  unfoldable pub collect :
      Option (TaskEnvelope → EventEnvelope → Result ArtifactRecord)
      → EventEnvelope
      → Method EventEnvelope
  collect none event = raise runner_identity_error
  collect (some prepare) event = do
    added ← lift (prepare task event)
    artifact ← create_artifact added
    pure (record event { payload = self.artifact_payload artifact })

  unfoldable pub persist_event : EventEnvelope → Method (Unit {0})
  persist_event event = do
    raise_if (misidentified event.run_id event.attempt_id event.engine) runner_identity_error
    collected ←
        (if is_artifact event.type then collect self.artifact_collector event else pure event)
    (if event_type_beq collected.type EventType.heartbeat
        then (renew_attempt_lease task.attempt_id self.runner_id self.lease_seconds none
              (self.clocks 10)
            >>= λ renewed. pure tt)
        else pure tt)
    append_event collected >>= λ stored. pure tt

  -- The executor's call, with `persist_event` as the sink.
  unfoldable pub run_execution : Execution → Method ResultEnvelope
  run_execution (Execution.returns result) s = (ok result, s)
  run_execution (Execution.raises e) s = (err e, s)
  run_execution (Execution.emits event next) s =
      let (r, s') = persist_event event s in run_execution (next r) s'
  run_execution (Execution.meanwhile call next) s = run_execution next (after sha256 call s)

  -- The calls of the callback; its exception, if any, is dropped.
  abbrev pub run_calls : List Call → RunRepository → RunRepository
  run_calls [] s = s
  run_calls (c ∷ cs) s = run_calls cs (after sha256 c s)

  abbrev pub callback_calls : Option (Uuid → List Call) → List Call
  callback_calls none = []
  callback_calls (some callback) = callback task.run_id

  unfoldable pub notify_completion : Method (Unit {0})
  notify_completion = modify (run_calls (callback_calls self.completion_callback))

  -- `begin_attempt`, with a lost race turned into an identity error
  unfoldable pub begin : Method (RunRecord × AttemptRecord)
  begin =
      rescue
        (begin_attempt task.run_id task.attempt_id self.runner_id self.lease_seconds
          (self.clocks 0))
        (λ e. raise (if is_invalid_transition e then runner_identity_error else e))

  -- The second `try`: the identity error that is raised at the end, and the result.
  unfoldable pub guarded : Execution → Method (Option Error × ResultEnvelope)
  guarded execution =
      rescue
        (do
          result ← run_execution execution
          raise_if (misidentified result.run_id result.attempt_id result.engine)
              runner_identity_error
          pure (none, result))
        (λ e. pure (if is_identity_error e then some e else none, infra_result e))

  -- A success of a run that is being cancelled counts as cancelled.
  unfoldable pub adjust : ResultEnvelope → Method ResultEnvelope
  adjust result =
      if outcome_beq result.outcome ResultOutcome.succeeded
      then (do
        run ← get task.run_id
        pure (if run_is run.state RunState.cancelling then cancelled_result result else result))
      else pure result

  -- The two last steps of the attempt; `false` when the attempt turned out to be lost.
  unfoldable pub close_attempt : ResultEnvelope → Method Bool
  close_attempt result =
      rescue
        (do
          transition_attempt task.attempt_id AttemptState.collecting (self.clocks 3) >>= λ a.
              pure tt
          complete_attempt task.attempt_id (attempt_result result.outcome) result (self.clocks 4)
              >>= λ a. pure true)
        (λ e.
          if is_invalid_transition e
          then (do
            current ← get_attempt task.attempt_id
            if attempt_is current.state AttemptState.lost then pure false else raise e)
          else raise e)

  unfoldable pub give_up : Method (Unit {0})
  give_up = do
    transition task.run_id RunState.infra_error (self.clocks 5) >>= λ run. pure tt
    notify_completion

  -- `if decision.should_retry`
  unfoldable pub retry : Option (Uuid → ℕ → Result (Unit {0})) → RetryDecision → Method (Unit {0})
  retry none decision = give_up
  retry (some schedule) decision = do
    transition task.run_id RunState.retry_wait (self.clocks 6) >>= λ run. pure tt
    rescue (lift (schedule task.run_id decision.delay_seconds)) (λ e. give_up)

  -- the run's last transitions
  unfoldable pub close_run : ResultEnvelope → Method (Unit {0})
  close_run result = do
    (if run_is (run_result result.outcome) RunState.cancelled
        then (do
          current ← get task.run_id
          if run_is current.state RunState.cancelling
              then pure tt
              else (transition task.run_id RunState.cancelling (self.clocks 7) >>= λ run. pure tt))
        else pure tt)
    transition task.run_id (run_result result.outcome) (self.clocks 8) >>= λ run. pure tt
    notify_completion

  -- `if identity_error is not None: raise identity_error`
  abbrev pub raise_identity : Option Error → Method (Unit {0})
  raise_identity none = pure tt
  raise_identity (some e) = raise e

  unfoldable pub conclude : Option Error → ResultEnvelope → Method ResultEnvelope
  conclude identity_error result = do
    attempts ← list_attempts task.run_id
    let decision = decide_retry task result (length attempts)
    if decision.should_retry
        then (do retry self.retry_scheduler decision; pure result)
        else (do close_run result; raise_identity identity_error; pure result)

  unfoldable pub record_result : Option Error → ResultEnvelope → Method ResultEnvelope
  record_result identity_error result = do
    current ← get_attempt task.attempt_id
    if attempt_is current.state AttemptState.lost then pure lost_result else do
      closed ← close_attempt result
      if closed then conclude identity_error result else pure lost_result

  -- RunnerManager.execute up to the call of the executor
  unfoldable pub prepare_attempt : Method (Unit {0})
  prepare_attempt = do
    run ← get task.run_id
    raise_if (not (engine_beq run.engine task.engine)) runner_identity_error
    raise_if (not (run_is run.state RunState.dispatching)) runner_identity_error
    begun ← begin
    let attempt = begun.1
    raise_if (not (attempt.id == task.attempt_id) || not (attempt.run_id == task.run_id))
        runner_identity_error
    transition_attempt task.attempt_id AttemptState.preparing (self.clocks 1) >>= λ a. pure tt
    transition_attempt task.attempt_id AttemptState.running (self.clocks 2) >>= λ a. pure tt

  -- RunnerManager.execute
  unfoldable pub execute : Execution → Method ResultEnvelope
  execute execution = do
    prepare_attempt
    ran ← guarded execution
    result ← adjust ran.1
    record_result ran.0 result
