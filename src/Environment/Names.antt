-- ===== src/Environment/Names.antt =====
-- The names of services/api/environment_repository.py.
use smarttest_platform.Base.{
  ℕ, ◌+◌, List, true, false, none, some, Result, ok, ◌≡◌, refl, ap, ◌∙◌, Option-cases, Bool-cases,
  Result-cases, inl, inr, ◌==◌, nat_eq, pair_eq,
}
use smarttest_platform.Base.Text.{Text, text_eq, text_beq, text_beq_iff}
use smarttest_platform.Base.Dict.{lookup, insert, delete}
use smarttest_platform.Base.Names.{
  IsIndexed, IsIndexed-add, IsIndexed-renamed, IsIndexed-same, other_owner,
}
use smarttest_platform.Protocol.{Uuid, Time, Json}
use smarttest_platform.Plan.Environments.{
  EncryptedSecret, ConfigurationValue, ConfigurationCategory, EnvironmentRecord, EnvironmentStatus,
  validate_environment_transition,
}
use smarttest_platform.Environment.Inputs.{
  GivenValue, ConfigurationValueInput, validate_environment_name, build_configuration_values,
}
use smarttest_platform.Environment.Methods.{
  EnvironmentRepository, create_environment, update_environment, get_environment,
  rename_environment, new_environment,
}

-- `(project_id, name)`
abbrev pub name_key : EnvironmentRecord → Uuid × Text
name_key r = (r.project_id, r.name)

abbrev pub HasNames : EnvironmentRepository → Type 0
HasNames s = IsIndexed name_key s.environments s.environment_names

-- The record that an update writes.
abbrev changed :
    EnvironmentRecord
    → Text
    → EnvironmentStatus
    → List ConfigurationValue
    → Time
    → EnvironmentRecord
changed r name status vs now = record r {
  name = name;
  status = status;
  revision = r.revision + 1;
  state_version = r.state_version + 1;
  values = vs;
  updated_at = now;
}

-- What an update writes: the record, and the names if the name is another.
module _ (id : Uuid) (q r : EnvironmentRecord) (n : Text) (s : EnvironmentRepository)
    (h : HasNames s) (found : lookup id s.environments ≡ some q)
    (named : name_key r ≡ (q.project_id, n)) where
  kept_name : n ≡ q.name → IsIndexed name_key (insert id r s.environments) s.environment_names
  kept_name same =
      IsIndexed-same name_key id q r s.environments s.environment_names h found
        (named ∙ ap (λ x. (q.project_id, x)) same)

  new_name :
      other_owner (lookup (q.project_id, n) s.environment_names) id ≡ false
      → IsIndexed name_key
          (insert id r s.environments)
          (insert (q.project_id, n) id (delete (q.project_id, q.name) s.environment_names))
  new_name free =
      IsIndexed-renamed name_key id q r (q.project_id, n) s.environments s.environment_names h found
        named free

module _ (dumps : GivenValue → Result Json) (byte_length : Json → ℕ)
    (encrypt : Text → Uuid → Uuid → ℕ → ConfigurationCategory → Text → Result EncryptedSecret)
    (decrypt : EncryptedSecret → Uuid → Uuid → ℕ → ConfigurationCategory → Text → Result Text) where
  create_environment-HasNames :
      (project_id : Uuid) (name : Text) (variables parameters : List ConfigurationValueInput)
      (uuid : Uuid) (uuids uuids' : ℕ → Uuid) (now : Time) (s : EnvironmentRepository)
      → lookup uuid s.environments ≡ none
      → HasNames s
      → HasNames
          (create_environment dumps byte_length encrypt decrypt project_id name variables parameters
            uuid uuids uuids' now s).1
  unfolding create_environment
  create_environment-HasNames project_id name variables parameters uuid uuids uuids' now s fresh h =
      elim (Result-cases (validate_environment_name name)) [
        | inr (x, e) ↦ rw e h
        | inl (n, e) ↦ elim (Option-cases (lookup (project_id, n) s.environment_names)) [
          | inr (owner, f) ↦ rw (e, f) h
          | inl f ↦
              elim (Result-cases (
                build_configuration_values dumps byte_length encrypt decrypt project_id uuid 1
                  variables parameters none uuids uuids')) [
                    | inr (x, g) ↦ rw (e, f, g) h
                    | inl (vs, g) ↦
                        rw (e, f, g)
                          (IsIndexed-add name_key uuid (new_environment uuid project_id n vs now)
                            s.environments s.environment_names h fresh f)
                  ]
        ]
      ]

  update_environment-HasNames :
      (id : Uuid) (version : ℕ) (name : Text) (status : EnvironmentStatus)
      (variables parameters : List ConfigurationValueInput) (uuids uuids' : ℕ → Uuid) (now : Time)
      (s : EnvironmentRepository)
      → HasNames s
      → HasNames
          (update_environment dumps byte_length encrypt decrypt id version name status variables
            parameters uuids uuids' now s).1
  unfolding update_environment get_environment rename_environment
  update_environment-HasNames id version name status variables parameters uuids uuids' now s h =
      elim (Result-cases (validate_environment_name name)) [
        | inr (x, e) ↦ rw e h
        | inl (n, e) ↦ elim (Option-cases (lookup id s.environments)) [
          | inl f ↦ rw (e, f) h
          | inr (q, f) ↦ elim (Bool-cases (q.state_version == version)) [
            | inr v ↦ rw (e, f, v) h
            | inl v ↦ elim (Result-cases (validate_environment_transition q.status status)) [
              | inr (x, t) ↦ rw (e, f, v, t) h
              | inl (u, t) ↦
                  elim (Bool-cases
                    (other_owner (lookup (q.project_id, n) s.environment_names) id)) [
                      | inl o ↦ rw (e, f, v, t, o) h
                      | inr o ↦
                          elim (Result-cases (
                            build_configuration_values dumps byte_length encrypt decrypt
                              q.project_id q.id (q.revision + 1) variables parameters (some q) uuids
                              uuids')) [
                                | inr (x, b) ↦ rw (e, f, v, t, o, b) h
                                | inl (vs, b) ↦ written q n vs e f v t o b
                              ]
                    ]
            ]
          ]
        ]
      ]
    where
      written :
          (q : EnvironmentRecord) (n : Text) (vs : List ConfigurationValue)
          → validate_environment_name name ≡ ok n
          → lookup id s.environments ≡ some q
          → (q.state_version == version) ≡ true
          → validate_environment_transition q.status status ≡ ok tt
          → other_owner (lookup (q.project_id, n) s.environment_names) id ≡ false
          → build_configuration_values dumps byte_length encrypt decrypt q.project_id q.id
              (q.revision + 1)
              variables
              parameters
              (some q)
              uuids
              uuids'
            ≡ ok vs
          → HasNames
              (update_environment dumps byte_length encrypt decrypt id version name status variables
                parameters uuids uuids' now s).1
      written q n vs e f v t o b = elim (Bool-cases (text_beq n q.name)) [
        | inl same ↦ elim (Option-cases (lookup id s.revisions)) [
          | inl p ↦
              rw (e, f, v, t, o, b, same, p)
                (kept_name id q (changed q n status vs now) n s h f refl
                  ((text_beq_iff n q.name).0 same))
          | inr (rs, p) ↦
              rw (e, f, v, t, o, b, same, p)
                (kept_name id q (changed q n status vs now) n s h f refl
                  ((text_beq_iff n q.name).0 same))
        ]
        | inr other ↦ elim (Option-cases (lookup (q.project_id, q.name) s.environment_names)) [
          | inl m ↦ rw (e, f, v, t, o, b, other, m) h
          | inr (owner, m) ↦ elim (Option-cases (lookup id s.revisions)) [
            | inl p ↦
                rw (e, f, v, t, o, b, other, m, p)
                  (new_name id q (changed q n status vs now) n s h f refl o)
            | inr (rs, p) ↦
                rw (e, f, v, t, o, b, other, m, p)
                  (new_name id q (changed q n status vs now) n s h f refl o)
          ]
        ]
      ]

  -- The calls that write, from a repository in which names and environments agree; a new
  -- environment has a fresh identifier.
  pub data EnvironmentCalls (s : EnvironmentRepository) : EnvironmentRepository → Type 0 where
    here : EnvironmentCalls s s
    creates :
        {t : EnvironmentRepository}
        → EnvironmentCalls s t
        → (project_id : Uuid) (name : Text) (variables parameters : List ConfigurationValueInput)
          (uuid : Uuid) (uuids uuids' : ℕ → Uuid) (now : Time)
        → lookup uuid t.environments ≡ none
        → EnvironmentCalls s
            (create_environment dumps byte_length encrypt decrypt project_id name variables
              parameters uuid uuids uuids' now t).1
    updates :
        {t : EnvironmentRepository}
        → EnvironmentCalls s t
        → (id : Uuid) (version : ℕ) (name : Text) (status : EnvironmentStatus)
          (variables parameters : List ConfigurationValueInput) (uuids uuids' : ℕ → Uuid)
          (now : Time)
        → EnvironmentCalls s
            (update_environment dumps byte_length encrypt decrypt id version name status variables
              parameters uuids uuids' now t).1

  -- After any calls on a repository whose names and environments agree, whether the calls return
  -- or raise: each environment is found by its project and name, and each pair that is taken is
  -- that of an environment. So no two environments of a project have one name.
  pub EnvironmentCalls-HasNames :
      {s t : EnvironmentRepository} → HasNames s → EnvironmentCalls s t → HasNames t
  EnvironmentCalls-HasNames h EnvironmentCalls.here = h
  EnvironmentCalls-HasNames h
        (EnvironmentCalls.creates {t} run project_id name variables parameters uuid uuids uuids' now
          fresh) =
      create_environment-HasNames project_id name variables parameters uuid uuids uuids' now t fresh
        (EnvironmentCalls-HasNames h run)
  EnvironmentCalls-HasNames h
        (EnvironmentCalls.updates {t} run id version name status variables parameters uuids uuids'
          now) =
      update_environment-HasNames id version name status variables parameters uuids uuids' now t
        (EnvironmentCalls-HasNames h run)
