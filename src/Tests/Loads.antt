-- ===== src/Tests/Loads.antt =====
-- Load tests with their runs.
use smarttest_platform.Base.{
  ◌≡◌, refl, ok, [], ◌∷◌, List, nat_eq, pair_eq, none, some, Result, true, false, ◌⊎◌,
}
use smarttest_platform.Base.Dict.{Dict, lookup, insert, Distinct}
use smarttest_platform.Base.Int.{ℤ}
use smarttest_platform.Base.Text.{Text, text, text_eq}
use smarttest_platform.Protocol.{Uuid, Json}
use smarttest_platform.LoadTests.Records.{
  LoadTestRecord, LoadTestRunRecord, LoadTestRunStatus, LoadTestTarget, LoadTestMode,
  LoadTestTrafficMode, Float, is_running,
}
use smarttest_platform.LoadTests.Methods.{
  LoadTestRepository, recover_running_runs, fail_runs, ended_run,
}
use smarttest_platform.LoadTests.Runs.{OneActive}
use smarttest_platform.LoadTests.Active.{Call, Calls, after, load_test_calls-OneActive}
use smarttest_platform.LoadTests.Recovery.{recover_running_runs-None, ended_run-kept}

abbrev search_target : LoadTestTarget
search_target = record {
  name = text "search";
  method = text "GET";
  url = text "http://shop/search";
  headers = text "{}";
  query = text "{}";
  body = text "null";
  expected_statuses = 200 ∷ [];
  extractors = [];
  think_time_ms = 0;
}

abbrev validate_target : Json → Result LoadTestTarget
validate_target j = ok search_target

abbrev bounded_targets : List LoadTestTarget → Result (List LoadTestTarget)
bounded_targets ts = ok ts

abbrev bounded_json : Json → Result Json
bounded_json j = ok j

abbrev empty_metrics : List Text → Json
empty_metrics names = text "{}"

abbrev search_test : LoadTestRecord
search_test = record {
  id = 3;
  project_id = 2;
  name = text "search";
  description = [];
  targets = search_target ∷ [];
  mode = LoadTestMode.counted;
  request_count = 10;
  duration_seconds = 1;
  concurrency = 2;
  interval_ms = 0;
  timeout_seconds = Float.fraction (ℤ.pos 30) 1;
  state_version = 0;
  created_at = 1;
  updated_at = 1;
  environment_id = none;
  traffic_mode = LoadTestTrafficMode.requests;
  initial_variables = text "{}";
  stop_on_failure = true;
  category = [];
}

abbrev load_run : LoadTestRunStatus → LoadTestRunRecord
load_run status = record {
  id = 7;
  load_test_id = 3;
  status = status;
  mode = LoadTestMode.counted;
  started_at = 4;
  finished_at = none;
  metrics = text "{}";
  error_message = none;
}

abbrev with_runs : Dict Uuid LoadTestRunRecord → LoadTestRepository
with_runs runs = record {
  definitions = (3, search_test) ∷ [];
  load_test_names = ((2, text "search"), 3) ∷ [];
  runs = runs;
  responses = [];
}

no_runs-OneActive : OneActive []
unfolding lookup
no_runs-OneActive = (tt, λ j k q r h. cc)

load_test_calls-OneActive_example :
    OneActive
      (after validate_target bounded_targets bounded_json empty_metrics (Call.creates_run 3 8 5) (
        after validate_target bounded_targets bounded_json empty_metrics
          (Call.creates_run 3 7 4)
          (with_runs []))).runs
load_test_calls-OneActive_example =
    load_test_calls-OneActive validate_target bounded_targets bounded_json empty_metrics
      {s = with_runs []} no_runs-OneActive
      (Calls.next (Calls.next Calls.here (Call.creates_run 3 7 4)) (Call.creates_run 3 8 5))

abbrev one_running : LoadTestRepository
one_running = with_runs ((7, load_run LoadTestRunStatus.running) ∷ [])

abbrev recovered_run : LoadTestRunRecord
recovered_run =
    ended_run (load_run LoadTestRunStatus.running) LoadTestRunStatus.failed (text "{}")
      (some (text "restart")) (some 9)

run_recovered :
    lookup 7 (recover_running_runs (text "restart") 9 one_running).1.runs ≡ some recovered_run
unfolding recover_running_runs fail_runs lookup insert
run_recovered = refl

recover_running_runs-None_example : is_running recovered_run.status ≡ false
recover_running_runs-None_example =
    recover_running_runs-None (text "restart") 9 one_running 7 recovered_run run_recovered

abbrev one_ended : LoadTestRepository
one_ended = with_runs ((7, load_run LoadTestRunStatus.succeeded) ∷ [])

run_ended : lookup 7 one_ended.runs ≡ some (load_run LoadTestRunStatus.succeeded)
unfolding lookup
run_ended = refl

runs-Distinct : Distinct one_ended.runs
unfolding lookup
runs-Distinct = (refl, tt)

ended_run-kept_example :
    (lookup 7
        (after validate_target bounded_targets bounded_json empty_metrics
          (Call.deletes_test 3)
          one_ended).runs
      ≡ some (load_run LoadTestRunStatus.succeeded))
    ⊎ (lookup 7
          (after validate_target bounded_targets bounded_json empty_metrics
            (Call.deletes_test 3)
            one_ended).runs
        ≡ none)
      × (Call.deletes_test 3 ≡ Call.deletes_test 3)
      × (lookup 3
            (after validate_target bounded_targets bounded_json empty_metrics
              (Call.deletes_test 3)
              one_ended).definitions
          ≡ none)
ended_run-kept_example =
    ended_run-kept validate_target bounded_targets bounded_json empty_metrics (Call.deletes_test 3)
      one_ended 7 (load_run LoadTestRunStatus.succeeded) runs-Distinct tt run_ended refl
