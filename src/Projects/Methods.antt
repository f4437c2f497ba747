-- ===== src/Projects/Methods.antt =====
-- services/api/project_domain.py and services/api/project_repository.py. `uuid` is the identifier
-- drawn, `now` the reading of the clock.
use smarttest_platform.Base.{
  ℕ, ◌+◌, List, Bool, true, false, not, ◌||◌, Option, none, some, Result, ok, err, Action, pure,
  bind, check, lift, gets, modify, raise_if, or_raise, ◌>>=◌, ◌>>◌, if◌then◌else◌, ◌==◌, nat_eq,
  leb, ltb, keep, length, is_some,
}
use smarttest_platform.Base.Exec.{
  value_error, invalid_project_transition, project_not_found, project_name_conflict,
  project_version_conflict,
}
use smarttest_platform.Base.Dict.{Dict, lookup, insert, delete, values}
use smarttest_platform.Base.Text.{Text, text_eq, text_beq, strip}
use smarttest_platform.Protocol.{Uuid, Time}
use smarttest_platform.Base.Sort.{sorted}
use smarttest_platform.Base.Names.{other_owner}

pub data ProjectStatus : Type 0 where
  active archived : ProjectStatus

abbrev pub project_status_beq : ProjectStatus → ProjectStatus → Bool
project_status_beq ProjectStatus.active ProjectStatus.active = true
project_status_beq ProjectStatus.archived ProjectStatus.archived = true
project_status_beq _ _ = false

-- on PROJECT_TRANSITIONS, which has no entry for ARCHIVED
unfoldable pub next_project_status : ProjectStatus → ProjectStatus → Result ProjectStatus
next_project_status ProjectStatus.active ProjectStatus.active = ok ProjectStatus.active
next_project_status ProjectStatus.active ProjectStatus.archived = ok ProjectStatus.archived
next_project_status ProjectStatus.archived _ = err invalid_project_transition

unfoldable pub validate_project_name : Text → Result Text
validate_project_name name =
    bind (check (length (strip name) == 0 || ltb 255 (length (strip name))) value_error)
      (λ u. ok (strip name))

pub record ProjectRecord : Type 0 where
  pub id : Uuid
  pub name : Text
  pub description : Text
  pub status : ProjectStatus
  pub state_version : ℕ
  pub created_at : Time
  pub updated_at : Time

-- ProjectRecord.update
abbrev pub updated_project :
    ProjectRecord → Text → Text → ProjectStatus → Time → Result ProjectRecord
updated_project r name description status now = bind (next_project_status r.status status) (λ next.
    ok (record r {
      name = name;
      description = description;
      status = next;
      state_version = r.state_version + 1;
      updated_at = now;
    }))

pub record ProjectRepository : Type 0 where
  pub projects : Dict Uuid ProjectRecord
  pub project_names : Dict Text Uuid

abbrev pub ProjectMethod {ℓ} : Type ℓ → Type ℓ
ProjectMethod A = Action ProjectRepository A

abbrev pub new_project : Uuid → Text → Text → Time → ProjectRecord
new_project uuid name description now = record {
  id = uuid;
  name = name;
  description = description;
  status = ProjectStatus.active;
  state_version = 0;
  created_at = now;
  updated_at = now;
}

abbrev pub put_project : Uuid → ProjectRecord → ProjectRepository → ProjectRepository
put_project id r s = record s { projects = insert id r s.projects }

abbrev pub name_project : Text → Uuid → ProjectRepository → ProjectRepository
name_project name id s = record s { project_names = insert name id s.project_names }

-- self._names.pop(name, None)
abbrev pub unname_project : Text → ProjectRepository → ProjectRepository
unname_project name s = record s { project_names = delete name s.project_names }

unfoldable pub create_project : Text → Text → Uuid → Time → ProjectMethod ProjectRecord
create_project name description uuid now = do
  normalized ← lift (validate_project_name name)
  owner ← gets (λ (s : ProjectRepository). lookup normalized s.project_names)
  raise_if (is_some owner) project_name_conflict
  modify (put_project uuid (new_project uuid normalized description now))
  modify (name_project normalized uuid)
  pure (new_project uuid normalized description now)

unfoldable pub get_project : Uuid → ProjectMethod ProjectRecord
get_project project_id s = or_raise (lookup project_id s.projects) project_not_found s

-- the filter by status, when one is given
abbrev has_status : Option ProjectStatus → ProjectRecord → Bool
has_status none r = true
has_status (some status) r = project_status_beq r.status status

unfoldable pub list_projects : Option ProjectStatus → ProjectMethod (List ProjectRecord)
list_projects status s = (
  ok (
      sorted (λ (a : ProjectRecord) (b : ProjectRecord). leb a.created_at b.created_at)
        (keep (has_status status) (values s.projects))),
  s,
)

unfoldable pub delete_project : Uuid → ProjectMethod (Unit {0})
delete_project project_id = do
  current ← get_project project_id
  modify (λ (s : ProjectRepository). record s { projects = delete project_id s.projects })
  modify (unname_project current.name)

unfoldable pub update_project :
    Uuid → Text → Text → ProjectStatus → ℕ → Time → ProjectMethod ProjectRecord
update_project project_id name description status expected_version now = do
  normalized ← lift (validate_project_name name)
  current ← get_project project_id
  raise_if (not (current.state_version == expected_version)) project_version_conflict
  owner ← gets (λ (s : ProjectRepository). lookup normalized s.project_names)
  raise_if (other_owner owner project_id) project_name_conflict
  updated ← lift (updated_project current normalized description status now)
  modify (put_project project_id updated)
  if text_beq normalized current.name then pure updated else do
    modify (unname_project current.name)
    modify (name_project normalized project_id)
    pure updated
