-- ===== src/Environment/Methods.antt =====
-- EnvironmentRepository of services/api/environment_repository.py.
use smarttest_platform.Base.{
  ℕ, ◌+◌, ◌-◌, ◌∷◌, [], List, ◌++◌, not, ◌||◌, none, some, is_some, Result, ok, Action, pure, lift,
  gets, modify, raise_if, or_raise, ◌>>=◌, ◌>>◌, if◌then◌else◌, ◌==◌, leb, ltb, length, get_elem?,
  keep, nat_eq, pair_eq,
}
use smarttest_platform.Base.Exec.{
  environment_not_found, environment_conflict, environment_version_conflict, key_error,
}
use smarttest_platform.Base.Dict.{Dict, lookup, insert, delete, values}
use smarttest_platform.Base.Names.{other_owner}
use smarttest_platform.Base.Sort.{sorted}
use smarttest_platform.Base.Text.{Text, text_eq, text_beq}
use smarttest_platform.Protocol.{Uuid, Time, Json}
use smarttest_platform.Plan.Environments.{
  EncryptedSecret, ConfigurationValue, ConfigurationCategory, EnvironmentRecord, EnvironmentStatus,
  validate_environment_transition, updated_environment,
}
use smarttest_platform.Environment.Inputs.{
  GivenValue, ConfigurationValueInput, validate_environment_name, build_configuration_values,
}

pub record EnvironmentRepository : Type 0 where
  pub environments : Dict Uuid EnvironmentRecord
  pub revisions : Dict Uuid (List EnvironmentRecord)
  pub environment_names : Dict (Uuid × Text) Uuid

abbrev pub EnvironmentMethod {ℓ} : Type ℓ → Type ℓ
EnvironmentMethod A = Action EnvironmentRepository A

abbrev pub new_environment : Uuid → Uuid → Text → List ConfigurationValue → Time → EnvironmentRecord
new_environment uuid project_id name values now = record {
  id = uuid;
  project_id = project_id;
  name = name;
  status = EnvironmentStatus.draft;
  revision = 1;
  state_version = 0;
  values = values;
  created_at = now;
  updated_at = now;
}

unfoldable pub get_environment : Uuid → EnvironmentMethod EnvironmentRecord
get_environment environment_id s =
    or_raise (lookup environment_id s.environments) environment_not_found s

unfoldable pub list_environments : Uuid → EnvironmentMethod (List EnvironmentRecord)
list_environments project_id s = (
  ok (
      sorted (λ (a : EnvironmentRecord) (b : EnvironmentRecord). leb a.created_at b.created_at)
        (keep (λ (r : EnvironmentRecord). r.project_id == project_id) (values s.environments))),
  s,
)

-- `self._revisions[environment_id]`, which raises KeyError
abbrev pub stored_revisions : Uuid → EnvironmentMethod (List EnvironmentRecord)
stored_revisions environment_id s = or_raise (lookup environment_id s.revisions) key_error s

unfoldable pub list_revisions : Uuid → EnvironmentMethod (List EnvironmentRecord)
list_revisions environment_id = do
  r ← get_environment environment_id
  stored_revisions environment_id

unfoldable pub get_revision : Uuid → ℕ → EnvironmentMethod EnvironmentRecord
get_revision environment_id revision = do
  r ← get_environment environment_id
  rs ← stored_revisions environment_id
  raise_if (ltb revision 1 || ltb (length rs) revision) environment_not_found
  or_raise (get_elem? rs (revision - 1)) environment_not_found

-- the two lines under `normalized_name != current.name`; `del` raises KeyError
unfoldable pub rename_environment : EnvironmentRecord → Text → Uuid → EnvironmentMethod (Unit {0})
rename_environment current name environment_id = do
  found ←
      gets (λ (s : EnvironmentRepository).
        lookup (current.project_id, current.name) s.environment_names)
  or_raise found key_error >>= λ id. pure tt
  modify (λ (s : EnvironmentRepository). record s {
    environment_names =
        insert (current.project_id, name) environment_id
          (delete (current.project_id, current.name) s.environment_names);
  })

abbrev pub put_environment :
    Uuid → EnvironmentRecord → EnvironmentRepository → EnvironmentRepository
put_environment id r s = record s { environments = insert id r s.environments }

abbrev pub put_revisions :
    Uuid → List EnvironmentRecord → EnvironmentRepository → EnvironmentRepository
put_revisions id rs s = record s { revisions = insert id rs s.revisions }

module _ (dumps : GivenValue → Result Json) (byte_length : Json → ℕ)
    (encrypt : Text → Uuid → Uuid → ℕ → ConfigurationCategory → Text → Result EncryptedSecret)
    (decrypt : EncryptedSecret → Uuid → Uuid → ℕ → ConfigurationCategory → Text → Result Text) where
  unfoldable pub create_environment :
      Uuid
      → Text
      → List ConfigurationValueInput
      → List ConfigurationValueInput
      → Uuid
      → (ℕ → Uuid)
      → (ℕ → Uuid)
      → Time
      → EnvironmentMethod EnvironmentRecord
  create_environment project_id name variables parameters uuid uuids uuids' now = do
    normalized ← lift (validate_environment_name name)
    owner ←
        gets (λ (s : EnvironmentRepository). lookup (project_id, normalized) s.environment_names)
    raise_if (is_some owner) environment_conflict
    vs ← lift (
        build_configuration_values dumps byte_length encrypt decrypt project_id uuid 1 variables
          parameters none uuids uuids')
    let created = new_environment uuid project_id normalized vs now
    modify (put_environment uuid created)
    modify (put_revisions uuid (created ∷ []))
    modify (λ (s : EnvironmentRepository). record s {
      environment_names = insert (project_id, normalized) uuid s.environment_names;
    })
    pure created

  unfoldable pub update_environment :
      Uuid
      → ℕ
      → Text
      → EnvironmentStatus
      → List ConfigurationValueInput
      → List ConfigurationValueInput
      → (ℕ → Uuid)
      → (ℕ → Uuid)
      → Time
      → EnvironmentMethod EnvironmentRecord
  update_environment environment_id expected_version name status variables parameters uuids uuids'
        now =
      do
        normalized ← lift (validate_environment_name name)
        current ← get_environment environment_id
        raise_if (not (current.state_version == expected_version)) environment_version_conflict
        lift (validate_environment_transition current.status status)
        owner ← gets (λ (s : EnvironmentRepository).
            lookup (current.project_id, normalized) s.environment_names)
        raise_if (other_owner owner environment_id) environment_conflict
        vs ← lift (
            build_configuration_values dumps byte_length encrypt decrypt current.project_id
              current.id (current.revision + 1) variables parameters (some current) uuids uuids')
        updated ← lift (updated_environment current normalized status vs now)
        (if text_beq normalized current.name
            then pure tt
            else rename_environment current normalized environment_id)
        modify (put_environment environment_id updated)
        rs ← stored_revisions environment_id
        modify (put_revisions environment_id (rs ++ (updated ∷ [])))
        pure updated
