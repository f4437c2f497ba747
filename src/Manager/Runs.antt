-- ===== src/Manager/Runs.antt =====
-- The steps of services/runner_manager.py as sequences of calls of the repository.
use smarttest_platform.Base.{Option, List, ◌∷◌, Result, some, Error, ℕ, [], none}
use smarttest_platform.Base.Text.{Text}
use smarttest_platform.Protocol.{Uuid, EventEnvelope, ResultEnvelope}
use smarttest_platform.Domain.{RunState, AttemptState, ArtifactRecord}
use smarttest_platform.Repository.State.{Clock}
use smarttest_platform.Repository.Runs.{get, transition}
use smarttest_platform.Repository.Attempts.{
  begin_attempt, transition_attempt, complete_attempt, get_attempt, list_attempts,
  renew_attempt_lease,
}
use smarttest_platform.Repository.Events.{append_event}
use smarttest_platform.Repository.Artifacts.{create_artifact}
use smarttest_platform.Repository.Calls.{Call, Calls, after, IsFresh}
use smarttest_platform.Manager.{
  ℤ, Time, Execution, RunRepository, RunnerManager, TaskEnvelope, run_calls, collect, persist_event,
  run_execution, begin, guarded, adjust, close_attempt, callback_calls, notify_completion, give_up,
  retry, close_run, conclude, record_result, execute, raise_identity, RetryDecision,
  prepare_attempt,
}
use smarttest_platform.Manager.Rules.{
  OnlyCalls, calls-pure, calls-raise, calls-lift, calls-if, calls-rescue, calls-raise_if,
  calls-bind, Calls-trans,
}

module _ (sha256 : Text → Text) where
  transition-calls : (k : Uuid) (t : RunState) (c : Clock) → OnlyCalls sha256 (transition k t c)
  unfolding after
  transition-calls k t c = record { at = λ s. Calls.next Calls.here (Call.move_run k t c) tt }

  get-calls : (k : Uuid) → OnlyCalls sha256 (get k)
  unfolding after
  get-calls k = record { at = λ s. Calls.next Calls.here (Call.read_run k) tt }

  transition_attempt-calls :
      (k : Uuid) (t : AttemptState) (c : Clock) → OnlyCalls sha256 (transition_attempt k t c)
  unfolding after
  transition_attempt-calls k t c = record {
    at = λ s. Calls.next Calls.here (Call.move_attempt k t c) tt;
  }

  begin_attempt-calls :
      (k j : Uuid) (runner : Text) (n : ℤ) (c : Clock)
      → OnlyCalls sha256 (begin_attempt k j runner n c)
  unfolding after
  begin_attempt-calls k j runner n c = record {
    at = λ s. Calls.next Calls.here (Call.begin k j runner n c) tt;
  }

  complete_attempt-calls :
      (k : Uuid) (t : AttemptState) (result : ResultEnvelope) (c : Clock)
      → OnlyCalls sha256 (complete_attempt k t result c)
  unfolding after
  complete_attempt-calls k t result c = record {
    at = λ s. Calls.next Calls.here (Call.complete k t result c) tt;
  }

  get_attempt-calls : (k : Uuid) → OnlyCalls sha256 (get_attempt k)
  unfolding after
  get_attempt-calls k = record { at = λ s. Calls.next Calls.here (Call.read_attempt k) tt }

  list_attempts-calls : (k : Uuid) → OnlyCalls sha256 (list_attempts k)
  unfolding after
  list_attempts-calls k = record { at = λ s. Calls.next Calls.here (Call.read_attempts k) tt }

  renew_attempt_lease-calls :
      (k : Uuid) (runner : Text) (n : ℤ) (now : Option Time) (c : Clock)
      → OnlyCalls sha256 (renew_attempt_lease k runner n now c)
  unfolding after
  renew_attempt_lease-calls k runner n now c = record {
    at = λ s. Calls.next Calls.here (Call.renew k runner n now c) tt;
  }

  append_event-calls : (event : EventEnvelope) → OnlyCalls sha256 (append_event event)
  unfolding after
  append_event-calls event = record { at = λ s. Calls.next Calls.here (Call.append event) tt }

  create_artifact-calls : (added : ArtifactRecord) → OnlyCalls sha256 (create_artifact added)
  unfolding after
  create_artifact-calls added = record {
    at = λ s. Calls.next Calls.here (Call.add_artifact added) tt;
  }

  ruleset rules = (
    calls-pure, calls-raise, calls-lift, calls-if, calls-rescue, calls-raise_if, calls-bind,
    transition-calls, get-calls, transition_attempt-calls, begin_attempt-calls,
    complete_attempt-calls, get_attempt-calls, list_attempts-calls, renew_attempt_lease-calls,
    append_event-calls, create_artifact-calls,
  )

-- Calls that draw no identifier.
abbrev pub DrawsNothing : Call → Type 0
DrawsNothing (Call.create engine parameters key uuid c) = ⊥
DrawsNothing _ = Unit

abbrev pub AllDrawNothing : List Call → Type 0
AllDrawNothing [] = Unit
AllDrawNothing (c ∷ cs) = DrawsNothing c × AllDrawNothing cs

-- No run is created by others while the executor runs.
abbrev pub IsQuiet : Execution → Type 0
IsQuiet (Execution.returns result) = Unit
IsQuiet (Execution.raises e) = Unit
IsQuiet (Execution.emits event next) = (r : Result (Unit {0})) → IsQuiet (next r)
IsQuiet (Execution.meanwhile call next) = DrawsNothing call × IsQuiet next

module _ (sha256 : Text → Text) where
  fresh : (c : Call) (s : RunRepository) → DrawsNothing c → IsFresh sha256 c s
  fresh (Call.create engine parameters key uuid c) s h = absurd h
  fresh _ s h = tt

  run_calls-Calls :
      (self : RunnerManager) (task : TaskEnvelope) (cs : List Call) (s : RunRepository)
      → AllDrawNothing cs
      → Calls sha256 s (run_calls sha256 self task cs s)
  run_calls-Calls self task [] s h = Calls.here
  run_calls-Calls self task (c ∷ cs) s h =
      Calls-trans sha256 (Calls.next Calls.here c (fresh c s h.0))
        (run_calls-Calls self task cs (after sha256 c s) h.1)

  module _ (self : RunnerManager) (task : TaskEnvelope) where
    collect-calls :
        (prepare : Option (TaskEnvelope → EventEnvelope → Result ArtifactRecord))
        (event : EventEnvelope)
        → OnlyCalls sha256 (collect sha256 self task prepare event)
    unfolding collect
    collect-calls none event = search rules
    collect-calls (some prepare) event = search rules

    persist_event-calls :
        (event : EventEnvelope) → OnlyCalls sha256 (persist_event sha256 self task event)
    unfolding persist_event
    persist_event-calls event = search (rules, collect-calls) depth 9

    run_execution-Calls :
        (execution : Execution) (s : RunRepository)
        → IsQuiet execution
        → Calls sha256 s (run_execution sha256 self task execution s).1
    unfolding run_execution
    run_execution-Calls (Execution.returns result) s q = Calls.here
    run_execution-Calls (Execution.raises e) s q = Calls.here
    run_execution-Calls (Execution.emits event next) s q =
        let (r, t) = persist_event sha256 self task event s in
        Calls-trans sha256 ((persist_event-calls event).at s) (run_execution-Calls (next r) t (q r))
    run_execution-Calls (Execution.meanwhile call next) s q =
        Calls-trans sha256 (Calls.next Calls.here call (fresh call s q.0))
          (run_execution-Calls next (after sha256 call s) q.1)

    begin-calls : OnlyCalls sha256 (begin sha256 self task)
    unfolding begin
    begin-calls = search rules

    pub prepare_attempt-calls : OnlyCalls sha256 (prepare_attempt sha256 self task)
    unfolding prepare_attempt
    prepare_attempt-calls = search (rules, begin-calls) depth 12

    run_execution-only :
        (execution : Execution)
        → IsQuiet execution
        → OnlyCalls sha256 (run_execution sha256 self task execution)
    run_execution-only execution q = record { at = λ s. run_execution-Calls execution s q }

    pub guarded-calls :
        (execution : Execution)
        → IsQuiet execution
        → OnlyCalls sha256 (guarded sha256 self task execution)
    unfolding guarded
    guarded-calls execution q =
        calls-rescue sha256 _ _
          (calls-bind sha256 _ _ (run_execution-only execution q) λ result. search rules)
          (λ e. search rules)

    pub adjust-calls : (result : ResultEnvelope) → OnlyCalls sha256 (adjust sha256 self task result)
    unfolding adjust
    adjust-calls result = search rules

    pub close_attempt-calls :
        (result : ResultEnvelope) → OnlyCalls sha256 (close_attempt sha256 self task result)
    unfolding close_attempt
    close_attempt-calls result = search rules depth 9

    module _
        (quiet : AllDrawNothing (callback_calls sha256 self task self.completion_callback)) where
      notify-calls : OnlyCalls sha256 (notify_completion sha256 self task)
      unfolding notify_completion
      notify-calls = record {
        at = λ s.
            run_calls-Calls self task (callback_calls sha256 self task self.completion_callback) s
              quiet;
      }

      give_up-calls : OnlyCalls sha256 (give_up sha256 self task)
      unfolding give_up
      give_up-calls = search (rules, notify-calls)

      retry-calls :
          (scheduler : Option (Uuid → ℕ → Result (Unit {0}))) (decision : RetryDecision)
          → OnlyCalls sha256 (retry sha256 self task scheduler decision)
      unfolding retry
      retry-calls none decision = give_up-calls
      retry-calls (some schedule) decision = search (rules, give_up-calls)

      close_run-calls :
          (result : ResultEnvelope) → OnlyCalls sha256 (close_run sha256 self task result)
      unfolding close_run
      close_run-calls result = search (rules, notify-calls) depth 9

      raise_identity-calls :
          (e : Option Error) → OnlyCalls sha256 (raise_identity sha256 self task e)
      raise_identity-calls none = search rules
      raise_identity-calls (some e) = search rules

      pub conclude-calls :
          (e : Option Error) (result : ResultEnvelope)
          → OnlyCalls sha256 (conclude sha256 self task e result)
      unfolding conclude
      conclude-calls e result =
          search (rules, retry-calls, close_run-calls, raise_identity-calls) depth 9

      record_result-calls :
          (e : Option Error) (result : ResultEnvelope)
          → OnlyCalls sha256 (record_result sha256 self task e result)
      unfolding record_result
      record_result-calls e result = search (rules, close_attempt-calls, conclude-calls) depth 9

      execute-only :
          (execution : Execution)
          → IsQuiet execution
          → OnlyCalls sha256 (execute sha256 self task execution)
      unfolding execute
      execute-only execution q = calls-bind sha256 _ _ prepare_attempt-calls λ _.
          calls-bind sha256 _ _ (guarded-calls execution q) λ ran.
            calls-bind sha256 _ _ (adjust-calls ran.1) λ result. record_result-calls ran.0 result

      -- Whatever the executor does and whether the manager returns or raises, it leaves the store as
      -- a sequence of calls of the repository does, so that all that holds of those holds of it.
      -- Others create no run in the meantime, nor does the completion callback.
      pub execute-Calls :
          (execution : Execution) (s : RunRepository)
          → IsQuiet execution
          → Calls sha256 s (execute sha256 self task execution s).1
      execute-Calls execution s q = (execute-only execution q).at s
