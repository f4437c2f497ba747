-- ===== src/LoadTests/Methods.antt =====
-- LoadTestRepository of services/api/load_test_repository.py. `empty_metrics` of
-- services/api/load_test_domain.py and the two validators are parameters.
use smarttest_platform.Base.{
  ℕ, ◌+◌, ◌∷◌, [], List, Bool, true, false, not, ◌&&◌, Option, none, some, Result, ok, Action, pure,
  lift, gets, modify, raise_if, or_raise, ◌>>=◌, ◌>>◌, if◌then◌else◌, ◌==◌, leb, length, is_some,
  keep, map, ◌++◌, nat_eq, pair_eq, bind,
}
use smarttest_platform.Base.Exec.{
  load_test_not_found, load_test_run_not_found, load_test_name_conflict, load_test_version_conflict,
  load_test_active_run_conflict,
}
use smarttest_platform.Base.Dict.{
  Dict, lookup, insert, delete, values, keep_values, first_where, keys_where,
}
use smarttest_platform.Base.Names.{other_owner}
use smarttest_platform.Base.Text.{Text, text_eq}
use smarttest_platform.Base.Lists.{take, drop}
use smarttest_platform.Base.Sort.{sorted}
use smarttest_platform.Base.Int.{to_nat}
use smarttest_platform.Protocol.{Uuid, Time, Json}
use smarttest_platform.LoadTests.Records.{
  LoadTestRecord, LoadTestRunRecord, LoadTestResponseRecord, LoadTestRunStatus, LoadTestTarget,
  LoadTestMode, LoadTestTrafficMode, Float, is_running,
}
use smarttest_platform.LoadTests.Settings.{
  normalize_name, normalize_category, normalize_targets, validate_settings, GivenNumbers,
}

pub record LoadTestRepository : Type 0 where
  pub definitions : Dict Uuid LoadTestRecord
  pub load_test_names : Dict (Uuid × Text) Uuid
  pub runs : Dict Uuid LoadTestRunRecord
  pub responses : Dict Uuid (List LoadTestResponseRecord)

abbrev pub LoadTestAction {ℓ} : Type ℓ → Type ℓ
LoadTestAction A = Action LoadTestRepository A

-- What the create and update calls take.
pub record LoadTestSettings : Type 0 where
  pub name : Text
  pub description : Text
  pub targets : List Json
  pub mode : LoadTestMode
  pub numbers : GivenNumbers
  pub environment_id : Option Uuid
  pub traffic_mode : LoadTestTrafficMode
  pub initial_variables : Json
  pub stop_on_failure : Bool
  pub category : Text

-- What is left of the settings after their checks.
pub record CheckedSettings : Type 0 where
  pub name : Text
  pub targets : List LoadTestTarget
  pub initial_variables : Json
  pub category : Text

abbrev pub new_load_test : Uuid → Uuid → LoadTestSettings → CheckedSettings → Time → LoadTestRecord
new_load_test uuid project_id settings checked now = record {
  id = uuid;
  project_id = project_id;
  name = checked.name;
  description = settings.description;
  targets = checked.targets;
  mode = settings.mode;
  request_count = to_nat settings.numbers.request_count;
  duration_seconds = to_nat settings.numbers.duration_seconds;
  concurrency = to_nat settings.numbers.concurrency;
  interval_ms = to_nat settings.numbers.interval_ms;
  timeout_seconds = settings.numbers.timeout_seconds;
  state_version = 0;
  created_at = now;
  updated_at = now;
  environment_id = settings.environment_id;
  traffic_mode = settings.traffic_mode;
  initial_variables = checked.initial_variables;
  stop_on_failure = settings.stop_on_failure;
  category = checked.category;
}

-- `current.updated(...)` of `update_load_test`
abbrev pub updated_load_test :
    LoadTestRecord → LoadTestSettings → CheckedSettings → Time → LoadTestRecord
updated_load_test r settings checked now = record r {
  name = checked.name;
  description = settings.description;
  targets = checked.targets;
  mode = settings.mode;
  request_count = to_nat settings.numbers.request_count;
  duration_seconds = to_nat settings.numbers.duration_seconds;
  concurrency = to_nat settings.numbers.concurrency;
  interval_ms = to_nat settings.numbers.interval_ms;
  timeout_seconds = settings.numbers.timeout_seconds;
  environment_id = settings.environment_id;
  traffic_mode = settings.traffic_mode;
  initial_variables = checked.initial_variables;
  stop_on_failure = settings.stop_on_failure;
  category = checked.category;
  state_version = r.state_version + 1;
  updated_at = now;
}

abbrev pub put_run : Uuid → LoadTestRunRecord → LoadTestRepository → LoadTestRepository
put_run id r s = record s { runs = insert id r s.runs }

abbrev pub put_responses :
    Uuid → List LoadTestResponseRecord → LoadTestRepository → LoadTestRepository
put_responses id rs s = record s { responses = insert id rs s.responses }

-- `self._responses.pop(run_id, None)` of each identifier
abbrev pub drop_responses :
    List Uuid → Dict Uuid (List LoadTestResponseRecord) → Dict Uuid (List LoadTestResponseRecord)
drop_responses [] d = d
drop_responses (id ∷ ids) d = drop_responses ids (delete id d)

abbrev pub is_active : Uuid → LoadTestRunRecord → Bool
is_active load_test_id r = (r.load_test_id == load_test_id) && is_running r.status

-- `_active_run`
unfoldable pub active_run : Uuid → LoadTestRepository → Option LoadTestRunRecord
active_run load_test_id s = first_where (is_active load_test_id) (values s.runs)

unfoldable pub get_load_test : Uuid → LoadTestAction LoadTestRecord
get_load_test load_test_id s = or_raise (lookup load_test_id s.definitions) load_test_not_found s

unfoldable pub list_load_tests : Uuid → LoadTestAction (List LoadTestRecord)
list_load_tests project_id s = (
  ok (
      sorted (λ (a : LoadTestRecord) (b : LoadTestRecord). leb a.created_at b.created_at)
        (keep (λ (r : LoadTestRecord). r.project_id == project_id) (values s.definitions))),
  s,
)

unfoldable pub get_run : Uuid → LoadTestAction LoadTestRunRecord
get_run run_id s = or_raise (lookup run_id s.runs) load_test_run_not_found s

unfoldable pub list_runs : Uuid → LoadTestAction (List LoadTestRunRecord)
list_runs load_test_id = do
  test ← get_load_test load_test_id
  gets (λ (s : LoadTestRepository).
      sorted (λ (a : LoadTestRunRecord) (b : LoadTestRunRecord). leb b.started_at a.started_at)
        (keep (λ (r : LoadTestRunRecord). r.load_test_id == load_test_id) (values s.runs)))

unfoldable pub delete_load_test : Uuid → LoadTestAction (Unit {0})
delete_load_test load_test_id = do
  current ← get_load_test load_test_id
  active ← gets (active_run load_test_id)
  raise_if (is_some active) load_test_active_run_conflict
  modify (λ (s : LoadTestRepository). record s { definitions = delete load_test_id s.definitions })
  modify (λ (s : LoadTestRepository). record s {
    load_test_names = delete (current.project_id, current.name) s.load_test_names;
  })
  removed_run_ids ← gets (λ (s : LoadTestRepository).
      keys_where (λ (r : LoadTestRunRecord). r.load_test_id == load_test_id) s.runs)
  modify (λ (s : LoadTestRepository). record s {
    runs = keep_values (λ (r : LoadTestRunRecord). not (r.load_test_id == load_test_id)) s.runs;
  })
  modify (λ (s : LoadTestRepository). record s {
    responses = drop_responses removed_run_ids s.responses;
  })

-- `int(...)`, `str(...)` and the like on the items are checked by the types.
pub record GivenResponse : Type 0 where
  pub sequence : ℕ
  pub target : Text
  pub successful : Bool
  pub status : Option ℕ
  pub latency_ms : Float
  pub error : Option Text
  pub body : Option Text
  pub body_kind : Text
  pub truncated : Bool
  pub body_bytes : ℕ

-- The records of the items, `uuids n` the identifier of item n.
abbrev pub new_responses :
    Uuid → Time → (ℕ → Uuid) → ℕ → List GivenResponse → List LoadTestResponseRecord
new_responses run_id now uuids n [] = []
new_responses run_id now uuids n (item ∷ items) =
    record {
      id = uuids n;
      run_id = run_id;
      sequence = item.sequence;
      target = item.target;
      successful = item.successful;
      status = item.status;
      latency_ms = item.latency_ms;
      error = item.error;
      body = item.body;
      body_kind = item.body_kind;
      truncated = item.truncated;
      body_bytes = item.body_bytes;
      created_at = now;
    }
    ∷ new_responses run_id now uuids (n + 1) items

-- `self._responses.get(run_id, [])`
abbrev pub responses_of : Uuid → LoadTestRepository → List LoadTestResponseRecord
responses_of run_id s = elim (lookup run_id s.responses) [ none ↦ [] | some rs ↦ rs ]

unfoldable pub add_run_responses :
    Uuid → List GivenResponse → (ℕ → Uuid) → Time → LoadTestAction (List LoadTestResponseRecord)
add_run_responses run_id given uuids now = do
  run ← get_run run_id
  let records = new_responses run_id now uuids 0 given
  present ← gets (responses_of run_id)
  modify (
      put_responses run_id (
        sorted
          (λ (a : LoadTestResponseRecord) (b : LoadTestResponseRecord). leb a.sequence b.sequence)
          (present ++ records)))
  pure records

-- `item.successful is successful`, where `successful` is given
abbrev pub has_outcome : Option Bool → LoadTestResponseRecord → Bool
has_outcome none r = true
has_outcome (some true) r = r.successful
has_outcome (some false) r = not r.successful

unfoldable pub list_run_responses :
    Uuid → ℕ → ℕ → Option Bool → LoadTestAction (List LoadTestResponseRecord × ℕ)
list_run_responses run_id offset limit successful = do
  run ← get_run run_id
  present ← gets (responses_of run_id)
  let items = keep (has_outcome successful) present
  pure (take limit (drop offset items), length items)

abbrev pub ended_run :
    LoadTestRunRecord → LoadTestRunStatus → Json → Option Text → Option Time → LoadTestRunRecord
ended_run r status metrics error_message finished_at = record r {
  status = status;
  finished_at = finished_at;
  metrics = metrics;
  error_message = error_message;
}

unfoldable pub update_run :
    Uuid → LoadTestRunStatus → Json → Option Text → Option Time → LoadTestAction LoadTestRunRecord
update_run run_id status metrics error_message finished_at = do
  current ← get_run run_id
  (if is_running current.status
      then modify (put_run run_id (ended_run current status metrics error_message finished_at))
        >> pure (ended_run current status metrics error_message finished_at)
      else pure current)

-- The loop of `recover_running_runs`.
unfoldable pub fail_runs :
    Text → Time → List Uuid → Dict Uuid LoadTestRunRecord → Dict Uuid LoadTestRunRecord
fail_runs message now [] d = d
fail_runs message now (id ∷ ids) d = fail_runs message now ids (elim (lookup id d) [
  | none ↦ d
  | some r ↦ insert id (ended_run r LoadTestRunStatus.failed r.metrics (some message) (some now)) d
])

abbrev pub running_ids : Dict Uuid LoadTestRunRecord → List Uuid
running_ids d = keys_where (λ (r : LoadTestRunRecord). is_running r.status) d

unfoldable pub recover_running_runs : Text → Time → LoadTestAction ℕ
recover_running_runs message now = do
  ids ← gets (λ (s : LoadTestRepository). running_ids s.runs)
  modify (λ (s : LoadTestRepository). record s { runs = fail_runs message now ids s.runs })
  pure (length ids)

module _ (validate_target : Json → Result LoadTestTarget)
    (bounded_targets : List LoadTestTarget → Result (List LoadTestTarget))
    (bounded_json : Json → Result Json) (empty_metrics : List Text → Json) where
  -- the checks that both calls begin with
  unfoldable pub check_settings : LoadTestSettings → Result CheckedSettings
  check_settings settings = bind (bounded_json settings.initial_variables) (λ variables.
      bind (normalize_name settings.name) (λ name.
        bind (normalize_category settings.category) (λ category.
          bind
            (normalize_targets validate_target bounded_targets settings.targets
              settings.traffic_mode)
            (λ targets. bind (validate_settings settings.numbers) (λ u. ok (record {
              name = name;
              targets = targets;
              initial_variables = variables;
              category = category;
            }))))))

  unfoldable pub create_load_test :
      Uuid → LoadTestSettings → Uuid → Time → LoadTestAction LoadTestRecord
  create_load_test project_id settings uuid now = do
    checked ← lift (check_settings settings)
    owner ← gets (λ (s : LoadTestRepository). lookup (project_id, checked.name) s.load_test_names)
    raise_if (is_some owner) load_test_name_conflict
    modify (λ (s : LoadTestRepository). record s {
      definitions = insert uuid (new_load_test uuid project_id settings checked now) s.definitions;
      load_test_names = insert (project_id, checked.name) uuid s.load_test_names;
    })
    pure (new_load_test uuid project_id settings checked now)

  unfoldable pub update_load_test :
      Uuid → LoadTestSettings → ℕ → Time → LoadTestAction LoadTestRecord
  update_load_test load_test_id settings expected_version now = do
    checked ← lift (check_settings settings)
    current ← get_load_test load_test_id
    raise_if (not (current.state_version == expected_version)) load_test_version_conflict
    owner ←
        gets
          (λ (s : LoadTestRepository). lookup (current.project_id, checked.name) s.load_test_names)
    raise_if (other_owner owner load_test_id) load_test_name_conflict
    let updated = updated_load_test current settings checked now
    modify (λ (s : LoadTestRepository). record s {
      definitions = insert load_test_id updated s.definitions;
      load_test_names =
          insert (current.project_id, checked.name) load_test_id
            (delete (current.project_id, current.name) s.load_test_names);
    })
    pure updated

  unfoldable pub create_run : Uuid → Uuid → Time → LoadTestAction LoadTestRunRecord
  create_run load_test_id uuid now = do
    definition ← get_load_test load_test_id
    active ← gets (active_run load_test_id)
    raise_if (is_some active) load_test_active_run_conflict
    let new_run : LoadTestRunRecord = record {
      id = uuid;
      load_test_id = load_test_id;
      status = LoadTestRunStatus.running;
      mode = definition.mode;
      started_at = now;
      finished_at = none;
      metrics = empty_metrics (map (λ (t : LoadTestTarget). t.name) definition.targets);
      error_message = none;
    }
    modify (put_run uuid new_run)
    modify (put_responses uuid [])
    pure new_run
