-- ===== src/Workflows/Names.antt =====
-- The names of services/api/data_factory_repository.py.
use smarttest_platform.Base.{
  ℕ, none, Result, ◌≡◌, refl, sym, Option-cases, Bool-cases, Result-cases, inl, inr, ◌==◌, ==_iff,
  nat_eq, pair_eq,
}
use smarttest_platform.Base.Text.{Text, text_eq, text_beq, text_beq_iff}
use smarttest_platform.Base.Dict.{lookup, insert, delete}
use smarttest_platform.Base.Names.{
  IsIndexed, IsIndexed-add, IsIndexed-renamed, IsIndexed-same, IsIndexed-remove, other_owner,
}
use smarttest_platform.Protocol.{Uuid, Time, Json}
use smarttest_platform.Workflows.Methods.{
  WorkflowRepository, WorkflowRecord, WorkflowParts, WorkflowRunRecord, create_workflow,
  update_workflow, delete_workflow, save_run, get_workflow, normalize_workflow_name, new_workflow,
  updated_workflow,
}
use mathlib.Core.Path.{subst}

-- `(project_id, name)`
abbrev pub workflow_key : WorkflowRecord → Uuid × Text
workflow_key r = (r.project_id, r.name)

abbrev pub KeepsNames : WorkflowRepository → Type 0
KeepsNames s = IsIndexed workflow_key s.workflows s.workflow_names

delete_workflow-KeepsNames :
    (id : Uuid) (s : WorkflowRepository) → KeepsNames s → KeepsNames (delete_workflow id s).1
unfolding delete_workflow get_workflow
delete_workflow-KeepsNames id s h = elim (Option-cases (lookup id s.workflows)) [
  | inl e ↦ rw e h
  | inr (r, e) ↦ rw e (IsIndexed-remove workflow_key id r s.workflows s.workflow_names h e)
]

save_run-KeepsNames :
    (str : Uuid → Text) (id : Uuid) (run : WorkflowRunRecord) (s : WorkflowRepository)
    → KeepsNames s
    → KeepsNames (save_run str id run s).1
unfolding save_run get_workflow
save_run-KeepsNames str id run s h = elim (Option-cases (lookup id s.workflows)) [
  | inl e ↦ rw e h
  | inr (r, e) ↦ elim (Bool-cases (text_beq run.workflow_id (str id))) [
    | inr t ↦ rw (e, t) h
    | inl t ↦ elim (Option-cases (lookup id s.workflow_runs)) [
      | inl f ↦ rw (e, t, f) h
      | inr (rs, f) ↦ rw (e, t, f) h
    ]
  ]
]

module _ (normalize_definition : Json → Json → Json → Result WorkflowParts) where
  create_workflow-KeepsNames :
      (project_id : Uuid) (name description : Text) (given : WorkflowParts) (uuid : Uuid)
      (now : Time) (s : WorkflowRepository)
      → lookup uuid s.workflows ≡ none
      → KeepsNames s
      → KeepsNames
          (create_workflow normalize_definition project_id name description given uuid now s).1
  unfolding create_workflow
  create_workflow-KeepsNames project_id name description given uuid now s fresh h =
      elim (Result-cases (normalize_workflow_name name)) [
        | inr (x, e) ↦ rw e h
        | inl (n, e) ↦
            elim (Result-cases (normalize_definition given.nodes given.edges given.variables)) [
              | inr (x, f) ↦ rw (e, f) h
              | inl (parts, f) ↦ elim (Option-cases (lookup (project_id, n) s.workflow_names)) [
                | inr (owner, g) ↦ rw (e, f, g) h
                | inl g ↦
                    rw (e, f, g)
                      (IsIndexed-add workflow_key uuid
                        (new_workflow uuid project_id n description parts now) s.workflows
                        s.workflow_names h fresh g)
              ]
            ]
      ]

  update_workflow-KeepsNames :
      (id project_id : Uuid) (name description : Text) (given : WorkflowParts) (version : ℕ)
      (now : Time) (s : WorkflowRepository)
      → KeepsNames s
      → KeepsNames
          (update_workflow normalize_definition id project_id name description given version now
            s).1
  unfolding update_workflow get_workflow
  update_workflow-KeepsNames id project_id name description given version now s h =
      elim (Result-cases (normalize_workflow_name name)) [
        | inr (x, e) ↦ rw e h
        | inl (n, e) ↦
            elim (Result-cases (normalize_definition given.nodes given.edges given.variables)) [
              | inr (x, f) ↦ rw (e, f) h
              | inl (parts, f) ↦ elim (Option-cases (lookup id s.workflows)) [
                | inl g ↦ rw (e, f, g) h
                | inr (q, g) ↦ elim (Bool-cases (q.project_id == project_id)) [
                  | inr p ↦ rw (e, f, g, p) h
                  | inl p ↦ elim (Bool-cases (q.state_version == version)) [
                    | inr v ↦ rw (e, f, g, p, v) h
                    | inl v ↦
                        elim (Bool-cases
                          (other_owner (lookup (project_id, n) s.workflow_names) id)) [
                            | inl o ↦ rw (e, f, g, p, v, o) h
                            | inr o ↦
                                let r = updated_workflow q project_id n description parts now in
                                let same_project = (==_iff q.project_id project_id).0 p in
                                elim (Bool-cases (text_beq n q.name)) [
                                  | inl t ↦
                                      rw (e, f, g, p, v, o, t)
                                        (IsIndexed-same workflow_key id q r s.workflows
                                          s.workflow_names h g
                                          (key_of project_id q.project_id n q.name
                                            (sym same_project) ((text_beq_iff n q.name).0 t)))
                                  | inr t ↦
                                      rw (e, f, g, p, v, o, t)
                                        (subst
                                          (λ x. IsIndexed workflow_key (insert id r s.workflows) (
                                            insert (project_id, n) id
                                              (delete (x, q.name) s.workflow_names)))
                                          same_project
                                          (IsIndexed-renamed workflow_key id q r (project_id, n)
                                            s.workflows s.workflow_names h g refl o))
                                ]
                          ]
                  ]
                ]
              ]
            ]
      ]
    where
      key_of : (p q : Uuid) (n m : Text) → p ≡ q → n ≡ m → ◌≡◌ {A = Uuid × Text} (p, n) (q, m)
      key_of p q n m e f = cc

  -- The calls that write; a new workflow has a fresh identifier.
  pub data WorkflowCalls (s : WorkflowRepository) : WorkflowRepository → Type 0 where
    here : WorkflowCalls s s
    creates :
        {t : WorkflowRepository}
        → WorkflowCalls s t
        → (project_id : Uuid) (name description : Text) (given : WorkflowParts) (uuid : Uuid)
          (now : Time)
        → lookup uuid t.workflows ≡ none
        → WorkflowCalls s
            (create_workflow normalize_definition project_id name description given uuid now t).1
    updates :
        {t : WorkflowRepository}
        → WorkflowCalls s t
        → (id project_id : Uuid) (name description : Text) (given : WorkflowParts) (version : ℕ)
          (now : Time)
        → WorkflowCalls s
            (update_workflow normalize_definition id project_id name description given version now
              t).1
    deletes :
        {t : WorkflowRepository}
        → WorkflowCalls s t
        → (id : Uuid) → WorkflowCalls s (delete_workflow id t).1
    saves :
        {t : WorkflowRepository}
        → WorkflowCalls s t
        → (str : Uuid → Text) (id : Uuid) (run : WorkflowRunRecord)
        → WorkflowCalls s (save_run str id run t).1

  -- After any calls on a repository whose names and workflows agree, whether the calls return or
  -- raise: each workflow is found by its project and name, and each pair that is taken is that of
  -- a workflow. So no two workflows of a project have one name, and a deleted one frees its name.
  pub WorkflowCalls-KeepsNames :
      {s t : WorkflowRepository} → KeepsNames s → WorkflowCalls s t → KeepsNames t
  WorkflowCalls-KeepsNames h WorkflowCalls.here = h
  WorkflowCalls-KeepsNames h
        (WorkflowCalls.creates {t} run project_id name description given uuid now fresh) =
      create_workflow-KeepsNames project_id name description given uuid now t fresh
        (WorkflowCalls-KeepsNames h run)
  WorkflowCalls-KeepsNames h
        (WorkflowCalls.updates {t} run id project_id name description given version now) =
      update_workflow-KeepsNames id project_id name description given version now t
        (WorkflowCalls-KeepsNames h run)
  WorkflowCalls-KeepsNames h (WorkflowCalls.deletes {t} run id) =
      delete_workflow-KeepsNames id t (WorkflowCalls-KeepsNames h run)
  WorkflowCalls-KeepsNames h (WorkflowCalls.saves {t} run str id saved) =
      save_run-KeepsNames str id saved t (WorkflowCalls-KeepsNames h run)
