-- ===== src/Tests/Manage.antt =====
-- A task that is executed, the decision to retry it, and the message that prepares its run.
use smarttest_platform.Base.{
  ◌≡◌, refl, some, none, ok, err, true, false, [], ◌∷◌, arith, nat_eq, ◌↔◌, ◌≤◌, ◌<◌, ◌⊎◌, min,
  invalid_transition, ◌≢◌,
}
use smarttest_platform.Base.Int.{pos}
use smarttest_platform.Protocol.{
  ExecutionPolicy, TaskEnvelope, ResultOutcome, EventEnvelope, Engine, ResultEnvelope, EventType,
}
use smarttest_platform.Retry.{decide_retry, requests, has_non_idempotent, is_idempotent, method_of}
use smarttest_platform.Manager.{
  RunnerManager, Execution, execute, cancelled_result, prepare_attempt, begin, rescue, guarded,
  run_execution, persist_event, adjust, record_result, close_attempt, conclude, close_run,
  notify_completion,
}
use smarttest_platform.Repository.Calls.{after, Call}
use smarttest_platform.Domain.Records.{
  RunRecord, run_with_state, attempt_with_state, claimed, with_result,
}
use smarttest_platform.Tests.Store.{
  sha, from_some, clock, dispatching, made, queued, dispatching-WellFormed,
}
use smarttest_platform.Repository.Runs.{
  create_or_get, fingerprint, canonical_request, normal_key, insert_new, create_locked, transition,
  get, cancel,
}
use smarttest_platform.Base.Text.{text, text_beq, strip, lstrip}
use smarttest_platform.Base.Dict.{lookup, insert}
use smarttest_platform.Manager.Executed.{Ended, execute_closed}
use smarttest_platform.Manager.Closed.{IsOf}
use smarttest_platform.Retry.Bounds.{decide_retry_delay, decide_retry_iff, OneOf, IsSafeMain}
use smarttest_platform.Domain.State.{transition_run, RunState}
use smarttest_platform.Domain.State
use smarttest_platform.Repository.Attempts
use smarttest_platform.Base.Sort.{sorted}
use smarttest_platform.Dispatch.{prepare_run}
use smarttest_platform.Repository.State.{
  new_repository, get_locked, put_run, Clock, get_attempt_locked,
}
use smarttest_platform.Dispatch.Queue.{advanced, prepare_run_lem}
use smarttest_platform.Repository.Attempts.{
  begin_attempt, get_attempt, complete_attempt, list_attempts,
}
use smarttest_platform.Repository.Events.{append_event}

abbrev policy : ExecutionPolicy
policy = record {
  before_steps = [];
  after_steps = [];
  has_assertions = false;
  has_extractions = false;
  retry = record {
    max_attempts = 3;
    retry_on = ResultOutcome.infra_error ∷ [];
    backoff_seconds = 5;
    max_backoff_seconds = 60;
    allow_non_idempotent_http = false;
  };
}

abbrev pub task : TaskEnvelope
task = record {
  run_id = 7;
  attempt_id = 9;
  engine = Engine.http;
  task_id = 11;
  tenant_id = 1;
  project_id = 2;
  idempotency_key = text "key";
  created_at = 0;
  deadline = 90000000;
  entrypoint = text "request";
  parameters = text "{}";
  run_spec_id = none;
  source_ref = none;
  content_digest = none;
  environment_variables = text "{}";
  request = none;
  environment_id = some 3;
  environment_revision = some 1;
  secret_references =
      record { category = text "environment_variable"; name = text "TOKEN"; secret_ref = 5 } ∷ [];
  execution_policy = policy;
}

abbrev result : ResultOutcome → ResultEnvelope
result outcome = record {
  run_id = 7;
  attempt_id = 9;
  engine = Engine.http;
  outcome = outcome;
  completed_at = 50;
  duration_ms = 3;
  summary = text "{}";
}

decide_retry_iff_example :
    ((decide_retry task (result ResultOutcome.infra_error) 1).should_retry ≡ true) ↔ (
      (1 < 3)
      × OneOf ResultOutcome.infra_error (ResultOutcome.infra_error ∷ [])
      × ((Engine.http ≡ Engine.pytest)
          ⊎ (Engine.http ≡ Engine.playwright)
          ⊎ (false ≡ true)
          ⊎ (IsSafeMain task.request × Unit {0} × Unit {0})))
decide_retry_iff_example = decide_retry_iff task (result ResultOutcome.infra_error) 1

retried : (decide_retry task (result ResultOutcome.infra_error) 1).should_retry ≡ true
unfolding decide_retry requests has_non_idempotent is_idempotent method_of text_beq
retried = refl

retried_again : (decide_retry task (result ResultOutcome.infra_error) 2).should_retry ≡ true
unfolding decide_retry requests has_non_idempotent is_idempotent method_of text_beq
retried_again = refl

decide_retry_delay_example :
    ((decide_retry task (result ResultOutcome.infra_error) 2).delay_seconds ≤ 60)
    × ((decide_retry task (result ResultOutcome.infra_error) 1).delay_seconds
        ≤ (decide_retry task (result ResultOutcome.infra_error) 2).delay_seconds)
    × ((1 < 1)
        ⊎ ((decide_retry task (result ResultOutcome.infra_error) 1).delay_seconds ≡ min 5 60))
decide_retry_delay_example =
    decide_retry_delay task (result ResultOutcome.infra_error) 1 2 retried retried_again
      (omega arith)

abbrev manager : RunnerManager
manager = record {
  runner_id = text "runner";
  lease_seconds = pos 60;
  artifact_collector = none;
  artifact_payload = λ a. text "{}";
  retry_scheduler = none;
  completion_callback = none;
  error_summary = λ e. text "{}";
  cancel_summary = λ s. s;
  clocks = λ n. clock;
  now = 40;
}

abbrev started : EventEnvelope
started = record {
  run_id = 7;
  attempt_id = 9;
  engine = Engine.http;
  event_id = 21;
  seq = 1;
  occurred_at = 5;
  type = EventType.started;
  payload = text "{}";
}

-- An executor that delivers an event, during which the run is cancelled, and succeeds.
abbrev execution : Execution
execution = Execution.emits started (λ r.
    Execution.meanwhile (Call.cancel_run 7 clock)
      (Execution.returns (result ResultOutcome.succeeded)))

-- The run was cancelled meanwhile, so that the success counts as cancelled.
abbrev cancelled : ResultEnvelope
cancelled = cancelled_result sha manager task (result ResultOutcome.succeeded)

execute_returns : (execute sha manager task execution dispatching).0 ≡ ok cancelled
unfolding get_locked get_attempt_locked after create_or_get fingerprint canonical_request normal_key
    insert_new create_locked transition begin_attempt run_with_state transition_run
    attempt_with_state State.transition_attempt claimed lookup insert strip lstrip new_repository
    execute prepare_attempt get begin rescue Attempts.transition_attempt guarded run_execution
    persist_event append_event adjust record_result get_attempt close_attempt complete_attempt
    with_result conclude list_attempts decide_retry close_run notify_completion cancel sorted
execute_returns = refl

execute_closed_example :
    Ended 9 cancelled (execute sha manager task execution dispatching).1 × IsOf task cancelled
execute_closed_example =
    execute_closed sha manager task tt execution dispatching cancelled dispatching-WellFormed
      (λ r. (tt, tt)) execute_returns

abbrev queued_run : RunRecord
queued_run = from_some made (lookup 7 queued.runs)

queued_found : lookup 7 queued.runs ≡ some queued_run
unfolding after create_or_get fingerprint canonical_request normal_key insert_new create_locked
    transition run_with_state transition_run lookup insert strip lstrip new_repository get_locked
queued_found = refl

prepare_run_lem_example :
    ((queued_run.state ≡ RunState.created)
      × (prepare_run 7 clock queued ≡ (err invalid_transition, queued)))
    ⊎ ((queued_run.state ≡ RunState.queued)
        × (prepare_run 7 clock queued ≡ (
          ok (advanced queued_run RunState.dispatching clock),
          put_run 7 (advanced queued_run RunState.dispatching clock) queued,
        ))
        × ((c' : Clock)
            → prepare_run 7 c' (prepare_run 7 clock queued).1 ≡ prepare_run 7 clock queued))
    ⊎ ((queued_run.state ≢ RunState.queued)
        × (queued_run.state ≢ RunState.created)
        × (prepare_run 7 clock queued ≡ (ok queued_run, queued)))
prepare_run_lem_example = prepare_run_lem queued 7 clock queued_run queued_found
