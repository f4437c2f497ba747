-- ===== src/Projects/Names.antt =====
-- The names of services/api/project_repository.py.
use smarttest_platform.Base.{
  ℕ, none, ok, ◌≡◌, ◌∙◌, Option-cases, Bool-cases, Result-cases, arith, inl, inr, ◌==◌, nat_eq,
}
use smarttest_platform.Base.Text.{Text, text_eq, text_beq, text_beq_iff}
use smarttest_platform.Base.Dict.{lookup}
use smarttest_platform.Base.Names.{
  IsIndexed, IsIndexed-add, IsIndexed-renamed, IsIndexed-same, IsIndexed-remove, other_owner,
}
use smarttest_platform.Projects.Methods.{
  ProjectRepository, create_project, delete_project, ProjectRecord, update_project, get_project,
  ProjectStatus, validate_project_name, updated_project, new_project, next_project_status,
}
use smarttest_platform.Protocol.{Uuid, Time}

abbrev pub IsNamed : ProjectRepository → Type 0
IsNamed s = IsIndexed (λ (r : ProjectRecord). r.name) s.projects s.project_names

create_project-IsNamed :
    (name description : Text) (uuid : Uuid) (now : Time) (s : ProjectRepository)
    → lookup uuid s.projects ≡ none
    → IsNamed s
    → IsNamed (create_project name description uuid now s).1
unfolding create_project
create_project-IsNamed name description uuid now s fresh h =
    elim (Result-cases (validate_project_name name)) [
      | inr (x, e) ↦ rw e h
      | inl (normalized, e) ↦ elim (Option-cases (lookup normalized s.project_names)) [
        | inr (owner, f) ↦ rw (e, f) h
        | inl f ↦
            rw (e, f)
              (IsIndexed-add _ uuid (new_project uuid normalized description now) s.projects
                s.project_names h fresh f)
      ]
    ]

delete_project-IsNamed :
    (id : Uuid) (s : ProjectRepository) → IsNamed s → IsNamed (delete_project id s).1
unfolding delete_project get_project
delete_project-IsNamed id s h = elim (Option-cases (lookup id s.projects)) [
  | inl e ↦ rw e h
  | inr (r, e) ↦ rw e (IsIndexed-remove _ id r s.projects s.project_names h e)
]

-- An update keeps the name that it was given.
updated_name :
    (r r' : ProjectRecord) (name description : Text) (status : ProjectStatus) (now : Time)
    → updated_project r name description status now ≡ ok r'
    → r'.name ≡ name
updated_name r r' name description status now =
    elim (Result-cases (next_project_status r.status status)) [
      | inl (next, e) ↦ rw e (λ h. ground arith)
      | inr (x, e) ↦ rw e (λ h. cc)
    ]

update_project-IsNamed :
    (id : Uuid) (name description : Text) (status : ProjectStatus) (version : ℕ) (now : Time)
    (s : ProjectRepository)
    → IsNamed s
    → IsNamed (update_project id name description status version now s).1
unfolding update_project get_project
update_project-IsNamed id name description status version now s h =
    elim (Result-cases (validate_project_name name)) [
      | inr (x, e) ↦ rw e h
      | inl (n, e) ↦ elim (Option-cases (lookup id s.projects)) [
        | inl f ↦ rw (e, f) h
        | inr (r, f) ↦ elim (Bool-cases (r.state_version == version)) [
          | inr v ↦ rw (e, f, v) h
          | inl v ↦ elim (Bool-cases (other_owner (lookup n s.project_names) id)) [
            | inl o ↦ rw (e, f, v, o) h
            | inr o ↦ elim (Result-cases (updated_project r n description status now)) [
              | inr (x, u) ↦ rw (e, f, v, o, u) h
              | inl (r', u) ↦
                  let named = updated_name r r' n description status now u in
                  elim (Bool-cases (text_beq n r.name)) [
                    | inl same ↦
                        rw (e, f, v, o, u, same)
                          (IsIndexed-same _ id r r' s.projects s.project_names h f
                            (named ∙ (text_beq_iff n r.name).0 same))
                    | inr other ↦
                        rw (e, f, v, o, u, other)
                          (IsIndexed-renamed _ id r r' n s.projects s.project_names h f named o)
                  ]
            ]
          ]
        ]
      ]
    ]

-- The calls that write.
pub data Call : Type 0 where
  creates : Text → Text → Uuid → Time → Call
  updates : Uuid → Text → Text → ProjectStatus → ℕ → Time → Call
  deletes : Uuid → Call

abbrev pub after : Call → ProjectRepository → ProjectRepository
after (Call.creates name description uuid now) s = (create_project name description uuid now s).1
after (Call.updates id name description status version now) s =
    (update_project id name description status version now s).1
after (Call.deletes id) s = (delete_project id s).1

-- `uuid4` draws an identifier that no project has.
abbrev pub IsFresh : Call → ProjectRepository → Type 0
IsFresh (Call.creates name description uuid now) s = lookup uuid s.projects ≡ none
IsFresh _ s = Unit

-- Any sequence of calls.
pub data Calls (s : ProjectRepository) : ProjectRepository → Type 0 where
  here : Calls s s
  next : {t : ProjectRepository} → Calls s t → (c : Call) → IsFresh c t → Calls s (after c t)

after-IsNamed : (c : Call) (s : ProjectRepository) → IsFresh c s → IsNamed s → IsNamed (after c s)
after-IsNamed (Call.creates name description uuid now) s fresh h =
    create_project-IsNamed name description uuid now s fresh h
after-IsNamed (Call.updates id name description status version now) s fresh h =
    update_project-IsNamed id name description status version now s h
after-IsNamed (Call.deletes id) s fresh h = delete_project-IsNamed id s h

-- After any calls on a repository whose names and projects agree, whether the calls return or
-- raise: each project is found by its name, and each name that is taken is that of a project. So
-- no two projects have one name, and the name of a deleted project is free.
pub project_calls-IsNamed : {s t : ProjectRepository} → IsNamed s → Calls s t → IsNamed t
project_calls-IsNamed h Calls.here = h
project_calls-IsNamed h (Calls.next {t} run c fresh) =
    after-IsNamed c t fresh (project_calls-IsNamed h run)
