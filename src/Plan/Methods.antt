-- ===== src/Plan/Methods.antt =====
-- The methods of TestPlanRepository on plans. `scripts` and `environments` are what the readers'
-- `get_revision` returns at the time of the call.
use smarttest_platform.Base.{
  ℕ, ◌∷◌, [], List, ◌++◌, Bool, true, false, not, ◌&&◌, ◌||◌, Option, some, Result, ok, bind, check,
  Action, pure, lift, gets, modify, raise_if, or_raise, ◌>>=◌, ◌>>◌, ◌==◌, nat_eq, keep,
}
use smarttest_platform.Base.Exec.{
  test_plan_not_found, test_plan_conflict, test_plan_version_conflict, run_spec_not_found,
  key_error,
}
use smarttest_platform.Base.Sort.{sorted, pair_leb}
use smarttest_platform.Base.Dict.{Dict, insert, lookup, values}
use smarttest_platform.Protocol.{Uuid, ExecutionPolicy, engine_beq, Time, Engine}
use smarttest_platform.Automation.Records.{AutomationScriptStatus, AutomationScriptRecord}
use smarttest_platform.Plan.Environments.{EnvironmentStatus, EnvironmentRecord}
use smarttest_platform.Plan.Records.{
  TestPlanRecord, ExecutionBatchRecord, RunSpecRecord, TestPlanItem, JsonMap, TestPlanStatus,
  updated_plan,
}
use smarttest_platform.Base.Int.{ℤ}
use smarttest_platform.Plan.Normalize.{
  is_empty, normalize_plan_text, normalize_plan_items, valid_parallel,
}
use smarttest_platform.Base.Text.{Text}
use smarttest_platform.Repository.State.{RunRepository}
use smarttest_platform.Automation.Methods.{nth_revision}

pub record TestPlanRepository : Type 0 where
  pub plans : Dict Uuid TestPlanRecord
  pub plan_revisions : Dict Uuid (List TestPlanRecord)
  pub batches : Dict Uuid ExecutionBatchRecord
  pub specs_by_run : Dict Uuid RunSpecRecord
  -- (tenant id, (project id, key)) ↦ (plan id, plan revision, batch id)
  pub batch_keys : Dict (Uuid × (Uuid × Text)) (Uuid × ℕ × Uuid)
  -- self._runs, the repository of runs, which is shared
  pub run_store : RunRepository

abbrev pub PlanMethod {ℓ} : Type ℓ → Type ℓ
PlanMethod A = Action TestPlanRepository A

abbrev pub put_plan : Uuid → TestPlanRecord → TestPlanRepository → TestPlanRepository
put_plan id r s = record s { plans = insert id r s.plans }

abbrev pub put_plan_revisions : Uuid → List TestPlanRecord → TestPlanRepository → TestPlanRepository
put_plan_revisions id rs s = record s { plan_revisions = insert id rs s.plan_revisions }

unfoldable pub get_plan : Uuid → PlanMethod TestPlanRecord
get_plan plan_id s = or_raise (lookup plan_id s.plans) test_plan_not_found s

unfoldable pub list_plans : Uuid → PlanMethod (List TestPlanRecord)
list_plans project_id s = (
  ok (
      sorted
        (λ (a : TestPlanRecord) (b : TestPlanRecord). pair_leb a.created_at a.id b.created_at b.id)
        (keep (λ (r : TestPlanRecord). r.project_id == project_id) (values s.plans))),
  s,
)

unfoldable pub list_plan_revisions : Uuid → PlanMethod (List TestPlanRecord)
list_plan_revisions plan_id = do
  get_plan plan_id >>= λ r. pure tt
  revisions ← gets (λ (s : TestPlanRepository). lookup plan_id s.plan_revisions)
  or_raise revisions key_error

unfoldable pub get_plan_revision : Uuid → ℤ → PlanMethod TestPlanRecord
get_plan_revision plan_id revision = do
  get_plan plan_id >>= λ r. pure tt
  revisions ← gets (λ (s : TestPlanRepository). lookup plan_id s.plan_revisions)
  saved ← or_raise revisions key_error
  or_raise (nth_revision saved revision) test_plan_not_found

unfoldable pub get_execution_batch : Uuid → PlanMethod ExecutionBatchRecord
get_execution_batch batch_id s = or_raise (lookup batch_id s.batches) test_plan_not_found s

unfoldable pub get_run_spec : Uuid → PlanMethod RunSpecRecord
get_run_spec run_id s = or_raise (lookup run_id s.specs_by_run) run_spec_not_found s

abbrev script_active : AutomationScriptStatus → Bool
script_active AutomationScriptStatus.active = true
script_active _ = false

abbrev environment_active : EnvironmentStatus → Bool
environment_active EnvironmentStatus.active = true
environment_active _ = false

-- HTTP steps, assertions or extractions of a policy
abbrev has_http_parts : ExecutionPolicy → Bool
has_http_parts p =
    not (is_empty p.before_steps)
    || not (is_empty p.after_steps)
    || p.has_assertions
    || p.has_extractions

module _ (scripts : Uuid → ℤ → Result AutomationScriptRecord)
    (environments : Uuid → ℤ → Result EnvironmentRecord) where
  -- the check of the environment of one item
  unfoldable pub check_environment : Uuid → Option Uuid → Option ℤ → Result (Unit {0})
  check_environment project_id (some id) (some revision) =
      bind (environments id revision) (λ environment.
        bind (check (not (environment.project_id == project_id)) test_plan_conflict)
          (λ u. check (not (environment_active environment.status)) test_plan_conflict))
  check_environment project_id _ _ = ok tt

  unfoldable pub validate_references : Uuid → List TestPlanItem → Result (Unit {0})
  validate_references project_id [] = ok tt
  validate_references project_id (item ∷ items) =
      let rest = validate_references project_id items in
      bind (scripts item.script_id item.script_revision) (λ script.
        bind (check (not (script.project_id == project_id)) test_plan_conflict) (λ u.
          bind (check (not (script_active script.status)) test_plan_conflict) (λ v.
            bind
              (check
                (not (engine_beq script.engine Engine.http) && has_http_parts item.execution_policy)
                test_plan_conflict)
              (λ w.
                bind (check_environment project_id item.environment_id item.environment_revision)
                  (λ x. rest)))))

  module _ (json_bytes : JsonMap → ℕ) where
    unfoldable pub create_plan :
        Uuid → Uuid → Text → Text → List TestPlanItem → ℤ → Uuid → Time → PlanMethod TestPlanRecord
    create_plan tenant_id project_id name description items max_parallel uuid now = do
      texts ← lift (normalize_plan_text name description)
      normal ← lift (normalize_plan_items json_bytes items)
      parallel ← lift (valid_parallel max_parallel)
      lift (validate_references project_id normal)
      let r : TestPlanRecord = record {
        id = uuid;
        tenant_id = tenant_id;
        project_id = project_id;
        name = texts.0;
        description = texts.1;
        items = normal;
        max_parallel = parallel;
        status = TestPlanStatus.draft;
        revision = 1;
        state_version = 0;
        created_at = now;
        updated_at = now;
      }
      modify (put_plan uuid r)
      modify (put_plan_revisions uuid (r ∷ []))
      pure r

    unfoldable pub update_plan :
        Uuid
        → ℕ
        → Text
        → Text
        → List TestPlanItem
        → TestPlanStatus
        → ℤ
        → Time
        → PlanMethod TestPlanRecord
    update_plan plan_id expected_version name description items status max_parallel now = do
      texts ← lift (normalize_plan_text name description)
      normal ← lift (normalize_plan_items json_bytes items)
      parallel ← lift (valid_parallel max_parallel)
      current ← get_plan plan_id
      raise_if (not (current.state_version == expected_version)) test_plan_version_conflict
      lift (validate_references current.project_id normal)
      updated ← lift (updated_plan current texts.0 texts.1 normal parallel status now)
      modify (put_plan plan_id updated)
      revisions ← gets (λ (s : TestPlanRepository). lookup plan_id s.plan_revisions)
      saved ← or_raise revisions key_error
      modify (put_plan_revisions plan_id (saved ++ (updated ∷ [])))
      pure updated
