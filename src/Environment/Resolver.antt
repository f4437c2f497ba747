-- ===== src/Environment/Resolver.antt =====
-- ConfigurationResolver of services/api/environment_repository.py. The repository that it reads and
-- the decryption are parameters, as in the source.
use smarttest_platform.Base.{
  ℕ, ◌∷◌, [], List, Bool, true, false, not, ◌&&◌, Option, none, some, is_some, Result, ok, err,
  bind, check, if◌then◌else◌, ◌==◌, elem, any_of, nat_eq, pair_eq, option_eq, keep, map,
}
use smarttest_platform.Base.Exec.{
  environment_not_found, environment_conflict, value_error, key_error,
}
use smarttest_platform.Base.Dict.{Dict, lookup, insert}
use smarttest_platform.Base.Text.{Text, text, text_eq, text_beq}
use smarttest_platform.Protocol.{Uuid, Json, SecretReference}
use smarttest_platform.Plan.Environments.{
  EncryptedSecret, ConfigurationValue, ConfigurationCategory, EnvironmentRecord, EnvironmentStatus,
}
use smarttest_platform.Secrets.Broker.{canonical_secret_references, ResolvedSecretValue}
use smarttest_platform.Environment.Inputs.{is_variable}

-- `category.value`
abbrev pub category_text : ConfigurationCategory → Text
category_text ConfigurationCategory.environment_variable = text "environment_variable"
category_text ConfigurationCategory.common_parameter = text "common_parameter"

-- `(category, name, secret_ref)`
abbrev pub Identity : Type 0
Identity = Text × (Text × Option Uuid)

abbrev pub value_identity : ConfigurationValue → Identity
value_identity v = (category_text v.category, (v.name, v.secret_ref))

abbrev pub reference_identity : SecretReference → Identity
reference_identity r = (r.category, (r.name, some r.secret_ref))

-- `ConfigurationCategory(category)` raises
abbrev unknown_category : SecretReference → Bool
unknown_category r =
    not (text_beq r.category (text "environment_variable"))
    && not (text_beq r.category (text "common_parameter"))

-- A value of a snapshot: a public one as it was given, or the text of a secret.
pub data SnapshotValue : Type 0 where
  given : Json → SnapshotValue
  revealed : Text → SnapshotValue

pub record ConfigurationSnapshot : Type 0 where
  pub environment_id : Uuid
  pub revision : ℕ
  pub environment_variables : Dict Text SnapshotValue
  pub common_parameters : Dict Text SnapshotValue

-- What the loop of `snapshot` writes.
pub record Collected : Type 0 where
  pub variables : Dict Text SnapshotValue
  pub parameters : Dict Text SnapshotValue
  pub matched : List Identity

abbrev collect_value : ConfigurationValue → SnapshotValue → Collected → Collected
collect_value v x c =
    if is_variable v.category
    then record c { variables = insert v.name x c.variables }
    else record c { parameters = insert v.name x c.parameters }

-- a secret that can be opened
abbrev pub is_available : ConfigurationValue → Bool
is_available v = v.secret && (is_some v.secret_ref && is_some v.encrypted)

abbrev is_active : EnvironmentStatus → Bool
is_active EnvironmentStatus.active = true
is_active _ = false

-- `values` of `resolve_secret_values`: of two values with one identity the later one
unfoldable pub available_values :
    List ConfigurationValue → Dict Identity ConfigurationValue → Dict Identity ConfigurationValue
available_values [] d = d
available_values (v ∷ vs) d =
    available_values vs (if is_available v then insert (value_identity v) v d else d)

-- `values[...]`, which raises KeyError
abbrev pub item_of : Option ConfigurationValue → Result ConfigurationValue
item_of none = err key_error
item_of (some v) = ok v

module _ (decrypt : EncryptedSecret → Uuid → Uuid → ℕ → ConfigurationCategory → Text → Result Text)
    (get_revision : Uuid → ℕ → Result EnvironmentRecord) where
  unfoldable pub open_value : EnvironmentRecord → ConfigurationValue → Result Text
  open_value r v = elim v.encrypted [
    | none ↦ err environment_conflict
    | some c ↦ decrypt c r.project_id r.id r.revision v.category v.name
  ]

  -- the loop of `snapshot`
  unfoldable pub collect :
      EnvironmentRecord → List Identity → List ConfigurationValue → Collected → Result Collected
  collect r requested [] c = ok c
  collect r requested (v ∷ vs) c =
      let next = collect r requested vs in
      if not v.secret
      then next (collect_value v (SnapshotValue.given v.value) c)
      else if not (elem (value_identity v) requested)
      then next c
      else bind (check (not (is_some v.encrypted && is_some v.secret_ref)) environment_conflict)
          (λ u. bind (open_value r v) (λ t.
            next (record (collect_value v (SnapshotValue.revealed t) c) {
              matched = value_identity v ∷ c.matched;
            })))

  -- the checks that the methods begin with
  unfoldable pub active_revision : Uuid → Uuid → ℕ → Result EnvironmentRecord
  active_revision project_id environment_id revision =
      bind (get_revision environment_id revision) (λ r.
        bind (check (not (r.project_id == project_id)) environment_not_found)
          (λ u. bind (check (not (is_active r.status)) environment_conflict) (λ u. ok r)))

  -- what is matched is requested, so the two sets differ when a requested identity is not matched
  unfoldable pub snapshot : Uuid → Uuid → ℕ → List SecretReference → Result ConfigurationSnapshot
  snapshot project_id environment_id revision references =
      bind (active_revision project_id environment_id revision) (λ r.
        bind (check (any_of unknown_category references) value_error) (λ u.
          bind
            (collect r (map reference_identity references) r.values
              (record { variables = []; parameters = []; matched = [] }))
            (λ c.
              bind
                (check (any_of (λ i. not (elem i c.matched)) (map reference_identity references))
                  environment_conflict)
                (λ u. ok (record {
                  environment_id = r.id;
                  revision = r.revision;
                  environment_variables = c.variables;
                  common_parameters = c.parameters;
                })))))

  -- `_validated_record`
  unfoldable pub validated_record :
      Uuid → Uuid → ℕ → List SecretReference → Result (EnvironmentRecord × List SecretReference)
  validated_record project_id environment_id revision references =
      bind (active_revision project_id environment_id revision)
        (λ r. bind (canonical_secret_references references) (λ canonical. ok (r, canonical)))

  -- canonical references have different identities, so `len(requested) != len(canonical)` is false
  unfoldable pub validate_secret_references :
      Uuid → Uuid → ℕ → List SecretReference → Result (List SecretReference)
  validate_secret_references project_id environment_id revision references =
      bind (validated_record project_id environment_id revision references) (λ p.
        bind
          (check
            (any_of
              (λ (x : SecretReference).
                not
                  (elem (reference_identity x) (map value_identity (keep is_available p.0.values))))
              p.1)
            environment_conflict)
          (λ u. ok p.1))

  -- the loop of `resolve_secret_values`
  unfoldable pub resolve_each :
      EnvironmentRecord
      → Dict Identity ConfigurationValue
      → List SecretReference
      → Result (List ResolvedSecretValue)
  resolve_each r values [] = ok []
  resolve_each r values (x ∷ xs) = bind (item_of (lookup (reference_identity x) values)) (λ v.
      bind (open_value r v) (λ t. bind (resolve_each r values xs) (λ rest. ok (
        record {
          category = category_text v.category;
          name = v.name;
          secret_ref = x.secret_ref;
          value = t;
        }
        ∷ rest))))

  unfoldable pub resolve_secret_values :
      Uuid → Uuid → ℕ → List SecretReference → Result (List ResolvedSecretValue)
  resolve_secret_values project_id environment_id revision references =
      bind (validated_record project_id environment_id revision references) (λ p.
        bind
          (check
            (any_of
              (λ (x : SecretReference).
                not (is_some (lookup (reference_identity x) (available_values p.0.values []))))
              p.1)
            environment_conflict)
          (λ u. resolve_each p.0 (available_values p.0.values []) p.1))
