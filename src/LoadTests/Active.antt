-- ===== src/LoadTests/Active.antt =====
-- Sequences of the calls of LoadTestRepository that write, of
-- services/api/load_test_repository.py.
use smarttest_platform.Base.{ℕ, List, Option, none, Result, ◌≡◌, nat_eq}
use smarttest_platform.Base.Text.{Text}
use smarttest_platform.Base.Dict.{lookup}
use smarttest_platform.Protocol.{Uuid, Time, Json}
use smarttest_platform.LoadTests.Records.{LoadTestRunStatus, LoadTestTarget}
use smarttest_platform.LoadTests.Methods.{
  LoadTestRepository, LoadTestSettings, GivenResponse, create_load_test, update_load_test,
  delete_load_test, create_run, add_run_responses, update_run, recover_running_runs,
}
use smarttest_platform.LoadTests.Runs.{
  OneActive, create_load_test-runs, update_load_test-runs, create_run-OneActive,
  delete_load_test-OneActive, add_run_responses-runs, update_run-OneActive,
  recover_running_runs-OneActive,
}
use mathlib.Core.Path.{subst, sym}

-- The calls that write.
pub data Call : Type 0 where
  creates_test : Uuid → LoadTestSettings → Uuid → Time → Call
  updates_test : Uuid → LoadTestSettings → ℕ → Time → Call
  deletes_test : Uuid → Call
  creates_run : Uuid → Uuid → Time → Call
  adds_responses : Uuid → List GivenResponse → (ℕ → Uuid) → Time → Call
  updates_run : Uuid → LoadTestRunStatus → Json → Option Text → Option Time → Call
  recovers : Text → Time → Call

-- `uuid4` draws an identifier that no run has.
abbrev pub IsFreshRun : Call → LoadTestRepository → Type 0
IsFreshRun (Call.creates_run id uuid now) s = lookup uuid s.runs ≡ none
IsFreshRun _ s = Unit

module _ (validate_target : Json → Result LoadTestTarget)
    (bounded_targets : List LoadTestTarget → Result (List LoadTestTarget))
    (bounded_json : Json → Result Json) (empty_metrics : List Text → Json) where
  abbrev pub after : Call → LoadTestRepository → LoadTestRepository
  after (Call.creates_test project_id settings uuid now) s =
      (create_load_test validate_target bounded_targets bounded_json empty_metrics project_id
        settings uuid now s).1
  after (Call.updates_test id settings version now) s =
      (update_load_test validate_target bounded_targets bounded_json empty_metrics id settings
        version now s).1
  after (Call.deletes_test id) s = (delete_load_test id s).1
  after (Call.creates_run id uuid now) s =
      (create_run validate_target bounded_targets bounded_json empty_metrics id uuid now s).1
  after (Call.adds_responses id given uuids now) s = (add_run_responses id given uuids now s).1
  after (Call.updates_run id status metrics message finished) s =
      (update_run id status metrics message finished s).1
  after (Call.recovers message now) s = (recover_running_runs message now s).1

  -- Any sequence of calls.
  pub data Calls (s : LoadTestRepository) : LoadTestRepository → Type 0 where
    here : Calls s s
    next : {t : LoadTestRepository} → Calls s t → (c : Call) → Calls s (after c t)

  after-OneActive :
      (c : Call) (s : LoadTestRepository) → OneActive s.runs → OneActive (after c s).runs
  after-OneActive (Call.creates_test project_id settings uuid now) s h =
      subst OneActive
        (sym (
          create_load_test-runs validate_target bounded_targets bounded_json empty_metrics
            project_id settings uuid now s))
        h
  after-OneActive (Call.updates_test id settings version now) s h =
      subst OneActive
        (sym (
          update_load_test-runs validate_target bounded_targets bounded_json empty_metrics id
            settings version now s))
        h
  after-OneActive (Call.deletes_test id) s h = delete_load_test-OneActive id s h
  after-OneActive (Call.creates_run id uuid now) s h =
      create_run-OneActive validate_target bounded_targets bounded_json empty_metrics id uuid now s
        h
  after-OneActive (Call.adds_responses id given uuids now) s h =
      subst OneActive (sym (add_run_responses-runs id given uuids now s)) h
  after-OneActive (Call.updates_run id status metrics message finished) s h =
      update_run-OneActive id status metrics message finished s h
  after-OneActive (Call.recovers message now) s h = recover_running_runs-OneActive message now s h

  -- After any calls on a repository in which no two running runs are of one load test and no run
  -- identifier stands twice, whether the calls return or raise, that is still so.
  pub load_test_calls-OneActive :
      {s t : LoadTestRepository} → OneActive s.runs → Calls s t → OneActive t.runs
  load_test_calls-OneActive h Calls.here = h
  load_test_calls-OneActive h (Calls.next {t} run c) =
      after-OneActive c t (load_test_calls-OneActive h run)
