-- ===== src/Workflows/Methods.antt =====
-- DataFactoryRepository of services/api/data_factory_repository.py. The validation of a definition
-- by WorkflowDefinitionSchema and `str` of an identifier are parameters; a run record is that of
-- services/api/data_factory_executor.py.
use smarttest_platform.Base.{
  ℕ, ◌+◌, ◌∷◌, [], List, ◌++◌, Bool, true, false, not, ◌&&◌, ◌||◌, Option, is_some, Result, ok,
  Action, pure, lift, gets, modify, raise_if, or_raise, bind, check, ◌>>=◌, ◌>>◌, if◌then◌else◌,
  ◌==◌, leb, ltb, length, keep, nat_eq, pair_eq,
}
use smarttest_platform.Base.Exec.{
  value_error, key_error, workflow_not_found, workflow_conflict, workflow_name_conflict,
  workflow_version_conflict,
}
use smarttest_platform.Base.Dict.{Dict, lookup, insert, delete, values}
use smarttest_platform.Base.Names.{other_owner}
use smarttest_platform.Base.Sort.{sorted}
use smarttest_platform.Base.Text.{Text, text_eq, text_beq, strip}
use smarttest_platform.Protocol.{Uuid, Time, Json}

-- `(nodes, edges, variables)`, each as JSON
pub record WorkflowParts : Type 0 where
  pub nodes : Json
  pub edges : Json
  pub variables : Json

pub record WorkflowRecord : Type 0 where
  pub id : Uuid
  pub project_id : Uuid
  pub name : Text
  pub description : Text
  pub parts : WorkflowParts
  pub state_version : ℕ
  pub created_at : Time
  pub updated_at : Time

pub record WorkflowRunRecord : Type 0 where
  pub id : Text
  pub workflow_id : Text
  pub status : Text
  pub node_results : Json
  pub variables : Json
  pub started_at : Text
  pub finished_at : Option Text

-- `a <= b` of two strings
abbrev text_leb : Text → Text → Bool
text_leb [] t = true
text_leb (a ∷ s) [] = false
text_leb (a ∷ s) (b ∷ t) = ltb a b || ((a == b) && text_leb s t)

pub record WorkflowRepository : Type 0 where
  pub workflows : Dict Uuid WorkflowRecord
  pub workflow_names : Dict (Uuid × Text) Uuid
  pub workflow_runs : Dict Uuid (List WorkflowRunRecord)

abbrev pub WorkflowMethod {ℓ} : Type ℓ → Type ℓ
WorkflowMethod A = Action WorkflowRepository A

unfoldable pub normalize_workflow_name : Text → Result Text
normalize_workflow_name name =
    bind (check ((length (strip name) == 0) || ltb 255 (length (strip name))) value_error)
      (λ u. ok (strip name))

abbrev pub new_workflow : Uuid → Uuid → Text → Text → WorkflowParts → Time → WorkflowRecord
new_workflow uuid project_id name description parts now = record {
  id = uuid;
  project_id = project_id;
  name = name;
  description = description;
  parts = parts;
  state_version = 0;
  created_at = now;
  updated_at = now;
}

-- the record of `update_workflow`
abbrev pub updated_workflow :
    WorkflowRecord → Uuid → Text → Text → WorkflowParts → Time → WorkflowRecord
updated_workflow current project_id name description parts now = record {
  id = current.id;
  project_id = project_id;
  name = name;
  description = description;
  parts = parts;
  state_version = current.state_version + 1;
  created_at = current.created_at;
  updated_at = now;
}

abbrev pub put_workflow : Uuid → WorkflowRecord → WorkflowRepository → WorkflowRepository
put_workflow id r s = record s { workflows = insert id r s.workflows }

abbrev pub put_workflow_runs :
    Uuid → List WorkflowRunRecord → WorkflowRepository → WorkflowRepository
put_workflow_runs id rs s = record s { workflow_runs = insert id rs s.workflow_runs }

unfoldable pub get_workflow : Uuid → WorkflowMethod WorkflowRecord
get_workflow workflow_id s = or_raise (lookup workflow_id s.workflows) workflow_not_found s

unfoldable pub list_workflows : Uuid → WorkflowMethod (List WorkflowRecord)
list_workflows project_id s = (
  ok (
      sorted (λ (a : WorkflowRecord) (b : WorkflowRecord). leb a.created_at b.created_at)
        (keep (λ (r : WorkflowRecord). r.project_id == project_id) (values s.workflows))),
  s,
)

unfoldable pub delete_workflow : Uuid → WorkflowMethod (Unit {0})
delete_workflow workflow_id = do
  current ← get_workflow workflow_id
  modify (λ (s : WorkflowRepository). record s { workflows = delete workflow_id s.workflows })
  modify (λ (s : WorkflowRepository). record s {
    workflow_names = delete (current.project_id, current.name) s.workflow_names;
  })
  modify
      (λ (s : WorkflowRepository). record s { workflow_runs = delete workflow_id s.workflow_runs })

-- `self._runs[workflow_id]`, which raises KeyError
abbrev pub runs_of : Uuid → WorkflowMethod (List WorkflowRunRecord)
runs_of workflow_id s = or_raise (lookup workflow_id s.workflow_runs) key_error s

unfoldable pub save_run :
    (Uuid → Text) → Uuid → WorkflowRunRecord → WorkflowMethod WorkflowRunRecord
save_run str workflow_id run = do
  current ← get_workflow workflow_id
  raise_if (not (text_beq run.workflow_id (str workflow_id))) workflow_conflict
  rs ← runs_of workflow_id
  modify (put_workflow_runs workflow_id (rs ++ (run ∷ [])))
  pure run

unfoldable pub list_workflow_runs : Uuid → WorkflowMethod (List WorkflowRunRecord)
list_workflow_runs workflow_id = do
  current ← get_workflow workflow_id
  rs ← runs_of workflow_id
  pure (
      sorted (λ (a : WorkflowRunRecord) (b : WorkflowRunRecord). text_leb b.started_at a.started_at)
        rs)

-- the two lines under `normalized_name != current.name`
abbrev pub rename_workflow : Uuid × Text → Text → Uuid → WorkflowRepository → WorkflowRepository
rename_workflow key old id s = record s {
  workflow_names = insert key id (delete (key.0, old) s.workflow_names);
}

module _ (normalize_definition : Json → Json → Json → Result WorkflowParts) where
  unfoldable pub create_workflow :
      Uuid → Text → Text → WorkflowParts → Uuid → Time → WorkflowMethod WorkflowRecord
  create_workflow project_id name description given uuid now = do
    normalized_name ← lift (normalize_workflow_name name)
    parts ← lift (normalize_definition given.nodes given.edges given.variables)
    owner ← gets (λ (s : WorkflowRepository). lookup (project_id, normalized_name) s.workflow_names)
    raise_if (is_some owner) workflow_name_conflict
    modify (put_workflow uuid (new_workflow uuid project_id normalized_name description parts now))
    modify (λ (s : WorkflowRepository). record s {
      workflow_names = insert (project_id, normalized_name) uuid s.workflow_names;
    })
    modify (put_workflow_runs uuid [])
    pure (new_workflow uuid project_id normalized_name description parts now)

  unfoldable pub update_workflow :
      Uuid → Uuid → Text → Text → WorkflowParts → ℕ → Time → WorkflowMethod WorkflowRecord
  update_workflow workflow_id project_id name description given expected_version now = do
    normalized_name ← lift (normalize_workflow_name name)
    parts ← lift (normalize_definition given.nodes given.edges given.variables)
    current ← get_workflow workflow_id
    raise_if (not (current.project_id == project_id)) workflow_conflict
    raise_if (not (current.state_version == expected_version)) workflow_version_conflict
    owner ← gets (λ (s : WorkflowRepository). lookup (project_id, normalized_name) s.workflow_names)
    raise_if (other_owner owner workflow_id) workflow_name_conflict
    let updated = updated_workflow current project_id normalized_name description parts now
    modify (put_workflow workflow_id updated)
    modify (λ (s : WorkflowRepository).
        if text_beq normalized_name current.name
        then s
        else rename_workflow (project_id, normalized_name) current.name workflow_id s)
    pure updated
