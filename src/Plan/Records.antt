-- ===== src/Plan/Records.antt =====
-- services/api/test_plan_domain.py: the records and the state machine of a plan. A JSON object is
-- a dictionary from its keys to canonical values.
use smarttest_platform.Base.{ℕ, ◌+◌, List, Option, Result, ok, err, bind}
use smarttest_platform.Base.Exec.{invalid_test_plan_transition}
use smarttest_platform.Base.Dict.{Dict}
use smarttest_platform.Base.Int.{ℤ}
use smarttest_platform.Base.Text.{Text}
use smarttest_platform.Protocol.{Uuid, Time, Json, Engine, ExecutionPolicy, SecretReference}

abbrev pub JsonMap : Type 0
JsonMap = Dict Text Json

pub data TestPlanStatus : Type 0 where
  draft active archived : TestPlanStatus

unfoldable pub validate_plan_transition : TestPlanStatus → TestPlanStatus → Result (Unit {0})
validate_plan_transition TestPlanStatus.draft TestPlanStatus.draft = ok tt
validate_plan_transition TestPlanStatus.draft TestPlanStatus.active = ok tt
validate_plan_transition TestPlanStatus.active TestPlanStatus.active = ok tt
validate_plan_transition TestPlanStatus.active TestPlanStatus.archived = ok tt
validate_plan_transition _ _ = err invalid_test_plan_transition

pub record TestPlanDataRow : Type 0 where
  pub row_key : Text
  pub values : JsonMap

pub record TestPlanItem : Type 0 where
  pub item_id : Uuid
  pub script_id : Uuid
  pub script_revision : ℤ
  pub environment_id : Option Uuid
  pub environment_revision : Option ℤ
  pub default_parameters : JsonMap
  pub data_rows : List TestPlanDataRow
  pub execution_policy : ExecutionPolicy

pub record TestPlanRecord : Type 0 where
  pub id : Uuid
  pub tenant_id : Uuid
  pub project_id : Uuid
  pub name : Text
  pub description : Text
  pub items : List TestPlanItem
  pub max_parallel : ℕ
  pub status : TestPlanStatus
  pub revision : ℕ
  pub state_version : ℕ
  pub created_at : Time
  pub updated_at : Time

-- TestPlanRecord.update
abbrev pub updated_plan :
    TestPlanRecord
    → Text
    → Text
    → List TestPlanItem
    → ℕ
    → TestPlanStatus
    → Time
    → Result TestPlanRecord
updated_plan r name description items max_parallel status now =
    bind (validate_plan_transition r.status status) (λ u. ok (record r {
      name = name;
      description = description;
      items = items;
      max_parallel = max_parallel;
      status = status;
      revision = r.revision + 1;
      state_version = r.state_version + 1;
      updated_at = now;
    }))

pub record RunSpecRecord : Type 0 where
  pub id : Uuid
  pub run_id : Uuid
  pub batch_id : Uuid
  pub tenant_id : Uuid
  pub project_id : Uuid
  pub plan_id : Uuid
  pub plan_revision : ℕ
  pub item_id : Uuid
  pub row_key : Text
  pub engine : Engine
  pub script_id : Uuid
  pub script_revision : ℕ
  pub source_ref : Text
  pub content_digest : Text
  pub entrypoint : Text
  pub timeout_seconds : ℕ
  pub environment_id : Option Uuid
  pub environment_revision : Option ℤ
  pub environment_variables : JsonMap
  pub parameters : JsonMap
  pub secret_references : List SecretReference
  pub execution_policy : ExecutionPolicy
  pub created_at : Time

pub record ExecutionBatchRecord : Type 0 where
  pub id : Uuid
  pub tenant_id : Uuid
  pub project_id : Uuid
  pub plan_id : Uuid
  pub plan_revision : ℕ
  pub idempotency_key : Text
  pub max_parallel : ℕ
  pub run_ids : List Uuid
  pub created_at : Time
