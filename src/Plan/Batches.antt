-- ===== src/Plan/Batches.antt =====
-- `execute` with `_expand`, and `claim_available_runs`.
use smarttest_platform.Base.{
  ℕ, zero, suc, ◌+◌, ◌-◌, ◌*◌, ◌∷◌, [], List, ◌++◌, map, Bool, true, false, not, ◌&&◌, Option, none,
  some, Result, ok, err, bind, pure, lift, gets, modify, raise_if, or_raise, ◌>>=◌, ◌>>◌,
  if◌then◌else◌, ◌==◌, nat_eq, pair_eq, count_if, length,
}
use smarttest_platform.Base.Exec.{test_plan_not_found, test_plan_conflict, value_error, key_error}
use smarttest_platform.Base.Text.{text_eq, Text, text, strip}
use smarttest_platform.Plan.Records.{
  JsonMap, TestPlanRecord, TestPlanItem, RunSpecRecord, TestPlanStatus, ExecutionBatchRecord,
  TestPlanDataRow,
}
use smarttest_platform.Plan.Environments.{
  ConfigurationCategory, ConfigurationValue, EnvironmentRecord,
}
use smarttest_platform.Domain.State.{RunState, run_is}
use smarttest_platform.Protocol.{Uuid, SecretReference, Json, Time}
use smarttest_platform.Repository.State.{get_locked, RunRepository, Clock, put_run}
use smarttest_platform.Domain.Records.{RunRecord, run_with_state}
use smarttest_platform.Base.Dict.{insert, lookup}
use smarttest_platform.Automation.Records.{AutomationScriptRecord}
use smarttest_platform.Plan.Methods.{TestPlanRepository, PlanMethod, get_plan}
use smarttest_platform.Base.Int.{ℤ}
use smarttest_platform.Plan.Normalize.{json_object, bad_key}
use smarttest_platform.Repository.Runs.{new_run}

-- Environment variables, common parameters and secret references.
abbrev Configured : Type 0
Configured = JsonMap × JsonMap × List SecretReference

-- `value.category.value`
abbrev category_value : ConfigurationCategory → Text
category_value ConfigurationCategory.environment_variable = text "environment_variable"
category_value ConfigurationCategory.common_parameter = text "common_parameter"

-- the reference of a secret value
abbrev secret_reference : ConfigurationValue → Option Uuid → Result SecretReference
secret_reference value none = err test_plan_conflict
secret_reference value (some id) =
    ok (record { category = category_value value.category; name = value.name; secret_ref = id })

-- a value that is no secret
abbrev plain_value : ConfigurationValue → ConfigurationCategory → Configured → Configured
plain_value value ConfigurationCategory.environment_variable (variables, common, secrets) =
    (insert value.name value.value variables, common, secrets)
plain_value value ConfigurationCategory.common_parameter (variables, common, secrets) =
    (variables, insert value.name value.value common, secrets)

-- the loop over the values of an environment
unfoldable pub read_values : List ConfigurationValue → Configured → Result Configured
read_values [] c = ok c
read_values (value ∷ more) (variables, common, secrets) = elim value.secret [
  | true ↦
      bind (secret_reference value value.secret_ref)
        (λ r. read_values more (variables, common, secrets ++ (r ∷ [])))
  | false ↦ read_values more (plain_value value value.category (variables, common, secrets))
]

-- `{**d, **items}`
abbrev merge : JsonMap → JsonMap → JsonMap
merge d [] = d
merge d ((k, v) ∷ items) = merge (insert k v d) items

-- `source_override or (script.source_ref, script.content_digest)`
abbrev source_of : Option (Text × Text) → AutomationScriptRecord → Text × Text
source_of none script = (script.source_ref, script.content_digest)
source_of (some source) script = source

-- `canonical` is the canonical text of an object, `fresh` the sequence of the identifiers drawn.
module _ (json_bytes : JsonMap → ℕ) (canonical : JsonMap → Json) (fresh : ℕ → Uuid) where
  unfoldable pub expand_row :
      TestPlanRecord
      → Uuid
      → Time
      → Option (Text × Text)
      → TestPlanItem
      → AutomationScriptRecord
      → Configured
      → TestPlanDataRow
      → ℕ
      → Result (RunRecord × RunSpecRecord)
  expand_row plan batch_id now override item script (variables, common, secrets) row n =
      bind (json_object json_bytes (merge (merge common item.default_parameters) row.values))
        (λ parameters. ok (
          new_run (fresh n) script.engine (canonical parameters) now,
          record {
            id = fresh (suc n);
            run_id = fresh n;
            batch_id = batch_id;
            tenant_id = plan.tenant_id;
            project_id = plan.project_id;
            plan_id = plan.id;
            plan_revision = plan.revision;
            item_id = item.item_id;
            row_key = row.row_key;
            engine = script.engine;
            script_id = script.id;
            script_revision = script.revision;
            source_ref = (source_of override script).0;
            content_digest = (source_of override script).1;
            entrypoint = script.entrypoint;
            timeout_seconds = script.timeout_seconds;
            environment_id = item.environment_id;
            environment_revision = item.environment_revision;
            environment_variables = variables;
            parameters = parameters;
            secret_references = secrets;
            execution_policy = item.execution_policy;
            created_at = now;
          },
        ))

  -- the loop over the rows of an item, whose first draw is the n-th
  unfoldable pub expand_rows :
      TestPlanRecord
      → Uuid
      → Time
      → Option (Text × Text)
      → TestPlanItem
      → AutomationScriptRecord
      → Configured
      → List TestPlanDataRow
      → ℕ
      → Result (List (RunRecord × RunSpecRecord))
  expand_rows plan batch_id now override item script configured [] n = ok []
  expand_rows plan batch_id now override item script configured (row ∷ rows) n =
      bind (expand_row plan batch_id now override item script configured row n) (λ first.
        bind (expand_rows plan batch_id now override item script configured rows (suc (suc n)))
          (λ rest. ok (first ∷ rest)))

  module _ (scripts : Uuid → ℤ → Result AutomationScriptRecord)
      (environments : Uuid → ℤ → Result EnvironmentRecord) where
    abbrev configured_by : Option Uuid → Option ℤ → Result Configured
    configured_by (some id) (some revision) =
        bind (environments id revision) (λ environment. read_values environment.values ([], [], []))
    configured_by _ _ = ok ([], [], [])

    -- `_expand`, from the n-th draw
    unfoldable pub expand :
        TestPlanRecord
        → Uuid
        → Time
        → Option (Text × Text)
        → List TestPlanItem
        → ℕ
        → Result (List (RunRecord × RunSpecRecord))
    expand plan batch_id now override [] n = ok []
    expand plan batch_id now override (item ∷ items) n =
        bind (scripts item.script_id item.script_revision) (λ script.
          bind (configured_by item.environment_id item.environment_revision) (λ configured.
            bind (expand_rows plan batch_id now override item script configured item.data_rows n)
              (λ first.
                bind (expand plan batch_id now override items (n + 2 * length item.data_rows))
                  (λ rest. ok (first ++ rest)))))

    -- the stores of runs and specs after the two loops of `execute`
    abbrev store_all : List (RunRecord × RunSpecRecord) → TestPlanRepository → TestPlanRepository
    store_all [] s = s
    store_all ((run, spec) ∷ more) s = store_all more (record s {
      run_store = put_run run.id run s.run_store;
      specs_by_run = insert spec.run_id spec s.specs_by_run;
    })

    abbrev is_active : TestPlanStatus → Bool
    is_active TestPlanStatus.active = true
    is_active _ = false

    -- the branch for a key that was used
    unfoldable pub replay_batch :
        TestPlanRecord → Uuid × ℕ × Uuid → PlanMethod (ExecutionBatchRecord × Bool)
    replay_batch plan (saved_plan, saved_revision, batch_id) = do
      raise_if (not ((saved_plan == plan.id) && (saved_revision == plan.revision)))
          test_plan_conflict
      found ← gets (λ (s : TestPlanRepository). lookup batch_id s.batches)
      batch ← or_raise found key_error
      pure (batch, true)

    -- the branch for a new key; the first draw is the batch's
    unfoldable pub new_batch :
        TestPlanRecord
        → Text
        → Option (Text × Text)
        → Time
        → PlanMethod (ExecutionBatchRecord × Bool)
    new_batch plan key override now = do
      raise_if (not (is_active plan.status)) test_plan_conflict
      expanded ← lift (expand plan (fresh 0) now override plan.items 1)
      let batch : ExecutionBatchRecord = record {
        id = fresh 0;
        tenant_id = plan.tenant_id;
        project_id = plan.project_id;
        plan_id = plan.id;
        plan_revision = plan.revision;
        idempotency_key = key;
        max_parallel = plan.max_parallel;
        run_ids = map (λ (p : RunRecord × RunSpecRecord). p.0.id) expanded;
        created_at = now;
      }
      modify (store_all expanded)
      modify (λ (s : TestPlanRepository). record s {
        batches = insert batch.id batch s.batches;
        batch_keys =
            insert (plan.tenant_id, (plan.project_id, key)) (plan.id, plan.revision, batch.id)
              s.batch_keys;
      })
      pure (batch, false)

    unfoldable pub execute :
        Uuid → Text → Option (Text × Text) → Time → PlanMethod (ExecutionBatchRecord × Bool)
    execute plan_id idempotency_key source_override now = do
      let key = strip idempotency_key
      raise_if (bad_key key) value_error
      plan ← get_plan plan_id
      existing ←
          gets (λ (s : TestPlanRepository).
            lookup (plan.tenant_id, (plan.project_id, key)) s.batch_keys)
      elim existing [
        | some saved ↦ replay_batch plan saved
        | none ↦ new_batch plan key source_override now
      ]

-- occupied_states
abbrev pub occupied_state : RunState → Bool
occupied_state RunState.queued = true
occupied_state RunState.dispatching = true
occupied_state RunState.running = true
occupied_state RunState.cancelling = true
occupied_state RunState.retry_wait = true
occupied_state _ = false

-- self._runs._runs[run_id] = run
abbrev pub store_run : Uuid → RunRecord → TestPlanRepository → TestPlanRepository
store_run run_id run s = record s { run_store = put_run run_id run s.run_store }

-- `[self._runs._get_locked(run_id) for run_id in batch.run_ids]`
unfoldable pub all_locked : List Uuid → RunRepository → Result (List RunRecord)
unfolding get_locked
all_locked [] s = ok []
all_locked (id ∷ ids) s =
    let rest = all_locked ids s in bind (get_locked id s).0 (λ r. bind rest (λ rs. ok (r ∷ rs)))

-- available == 0
abbrev pub is_zero : ℕ → Bool
is_zero zero = true
is_zero (suc n) = false

-- the loop over the records; `clock` are the readings of `with_state`
unfoldable pub claim_each : List RunRecord → ℕ → Clock → PlanMethod (List Uuid)
claim_each [] available clock = pure []
claim_each (r ∷ records) available clock =
    if is_zero available
    then pure []
    else if not (run_is r.state RunState.created)
    then claim_each records available clock
    else do
      updated ← lift (run_with_state r RunState.queued (clock 0))
      modify (store_run r.id updated)
      claimed ← claim_each records (available - 1) (λ n. clock (suc n))
      pure (r.id ∷ claimed)

unfoldable pub claim_available_runs : Uuid → Clock → PlanMethod (List Uuid)
claim_available_runs batch_id clock = do
  found ← gets (λ (s : TestPlanRepository). lookup batch_id s.batches)
  batch ← or_raise found test_plan_not_found
  runs ← gets (λ (s : TestPlanRepository). s.run_store)
  records ← lift (all_locked batch.run_ids runs)
  let available = batch.max_parallel - count_if (λ (r : RunRecord). occupied_state r.state) records
  claim_each records available clock
