-- ===== src/Parameters/Methods.antt =====
-- ParameterRepository. `scripts` is what ScriptReader.get_script returns at the time of the call.
use smarttest_platform.Base.{
  ℕ, ◌∷◌, [], List, Bool, false, not, ◌&&◌, ◌||◌, Option, none, some, Result, ok, err, Action, pure,
  bind, check, lift, gets, modify, raise_if, or_raise, ◌>>=◌, ◌>>◌, if◌then◌else◌, ◌==◌, nat_eq,
  leb, keep, elem, is_some, any_of, pair_eq, opt_beq,
}
use smarttest_platform.Base.Exec.{
  parameter_enum_not_found, parameter_enum_conflict, parameter_enum_version_conflict,
  script_parameter_conflict, key_error,
}
use smarttest_platform.Base.Dict.{Dict, lookup, insert, delete, values}
use smarttest_platform.Base.Names.{other_owner}
use smarttest_platform.Base.Text.{text_eq, text_beq, Text}
use smarttest_platform.Protocol.{Uuid, Json, Time}
use smarttest_platform.Parameters.Records.{
  ScriptParameterDefinition, ParameterEnumSetRecord, ParameterEnumOption, option_values,
  validate_parameter_definitions, validate_enum_values, updated_enum_set,
}
use smarttest_platform.Automation.Records.{AutomationScriptRecord}
use smarttest_platform.Base.Sort.{sorted}

pub record ParameterRepository : Type 0 where
  pub enums : Dict Uuid ParameterEnumSetRecord
  -- (project id, name) ↦ enum set id
  pub enum_names : Dict (Uuid × Text) Uuid
  pub parameters : Dict Uuid (List ScriptParameterDefinition)

abbrev pub ParameterMethod {ℓ} : Type ℓ → Type ℓ
ParameterMethod A = Action ParameterRepository A

abbrev pub put_enum : Uuid → ParameterEnumSetRecord → ParameterRepository → ParameterRepository
put_enum id r s = record s { enums = insert id r s.enums }

abbrev pub name_enum : Uuid × Text → Uuid → ParameterRepository → ParameterRepository
name_enum key id s = record s { enum_names = insert key id s.enum_names }

-- `del self._names[key]`, which raises KeyError
unfoldable pub unname_enum : Uuid × Text → ParameterMethod (Unit {0})
unname_enum key = do
  found ← gets (λ (s : ParameterRepository). lookup key s.enum_names)
  or_raise found key_error >>= λ id. pure tt
  modify (λ (s : ParameterRepository). record s { enum_names = delete key s.enum_names })

abbrev pub new_enum_set :
    Uuid → Uuid → Text → Text → List ParameterEnumOption → Time → ParameterEnumSetRecord
new_enum_set uuid project_id name description options now = record {
  id = uuid;
  project_id = project_id;
  name = name;
  description = description;
  options = options;
  state_version = 0;
  created_at = now;
  updated_at = now;
}

unfoldable pub create_enum_set :
    Uuid
    → Text
    → Text
    → List ParameterEnumOption
    → Uuid
    → Time
    → ParameterMethod ParameterEnumSetRecord
create_enum_set project_id name description options uuid now = do
  valid ← lift (validate_enum_values name options)
  owner ← gets (λ (s : ParameterRepository). lookup (project_id, valid.0) s.enum_names)
  raise_if (is_some owner) parameter_enum_conflict
  modify (put_enum uuid (new_enum_set uuid project_id valid.0 description valid.1 now))
  modify (name_enum (project_id, valid.0) uuid)
  pure (new_enum_set uuid project_id valid.0 description valid.1 now)

unfoldable pub get_enum_set : Uuid → ParameterMethod ParameterEnumSetRecord
get_enum_set enum_set_id s = or_raise (lookup enum_set_id s.enums) parameter_enum_not_found s

unfoldable pub list_enum_sets : Uuid → ParameterMethod (List ParameterEnumSetRecord)
list_enum_sets project_id s = (
  ok (
      sorted
        (λ (a : ParameterEnumSetRecord) (b : ParameterEnumSetRecord). leb a.created_at b.created_at)
        (keep (λ (r : ParameterEnumSetRecord). r.project_id == project_id) (values s.enums))),
  s,
)

-- the default of an enum parameter is none of the values
abbrev pub loses_default : Uuid → List Json → ScriptParameterDefinition → Bool
loses_default enum_set_id identities d =
    opt_beq d.enum_set_id (some enum_set_id) && not (elem d.default_value identities)

-- some parameter of some script passes the test
unfoldable pub any_parameter :
    (ScriptParameterDefinition → Bool) → Dict Uuid (List ScriptParameterDefinition) → Bool
any_parameter test [] = false
any_parameter test ((script, definitions) ∷ rest) =
    any_of test definitions || any_parameter test rest

-- `_validate_existing_defaults`
abbrev pub invalidates_default :
    Uuid → List ParameterEnumOption → Dict Uuid (List ScriptParameterDefinition) → Bool
invalidates_default enum_set_id options =
    any_parameter (loses_default enum_set_id (option_values options))

unfoldable pub update_enum_set :
    Uuid
    → ℕ
    → Text
    → Text
    → List ParameterEnumOption
    → Time
    → ParameterMethod ParameterEnumSetRecord
update_enum_set enum_set_id expected_version name description options now = do
  valid ← lift (validate_enum_values name options)
  current ← get_enum_set enum_set_id
  raise_if (not (current.state_version == expected_version)) parameter_enum_version_conflict
  owner ← gets (λ (s : ParameterRepository). lookup (current.project_id, valid.0) s.enum_names)
  raise_if (other_owner owner enum_set_id) parameter_enum_conflict
  lost ← gets (λ (s : ParameterRepository). invalidates_default enum_set_id valid.1 s.parameters)
  raise_if lost parameter_enum_conflict
  let updated = updated_enum_set current valid.0 description valid.1 now
  (if text_beq current.name valid.0
      then pure tt
      else unname_enum (current.project_id, current.name)
        >> modify (name_enum (current.project_id, valid.0) enum_set_id))
  modify (put_enum enum_set_id updated)
  pure updated

-- the parameter refers to the enum set
abbrev pub refers_to : Uuid → ScriptParameterDefinition → Bool
refers_to enum_set_id d = opt_beq d.enum_set_id (some enum_set_id)

abbrev pub is_referenced : Uuid → Dict Uuid (List ScriptParameterDefinition) → Bool
is_referenced enum_set_id = any_parameter (refers_to enum_set_id)

unfoldable pub delete_enum_set : Uuid → ParameterMethod (Unit {0})
delete_enum_set enum_set_id = do
  current ← get_enum_set enum_set_id
  referenced ← gets (λ (s : ParameterRepository). is_referenced enum_set_id s.parameters)
  raise_if referenced parameter_enum_conflict
  modify (λ (s : ParameterRepository). record s { enums = delete enum_set_id s.enums })
  unname_enum (current.project_id, current.name)

-- `self._parameters.get(script_id, ())`
abbrev pub parameters_of : Option (List ScriptParameterDefinition) → List ScriptParameterDefinition
parameters_of none = []
parameters_of (some definitions) = definitions

-- the enum set of one definition in `_validate_parameter_enums`
abbrev pub check_found :
    Uuid → ScriptParameterDefinition → Option ParameterEnumSetRecord → Result (Unit {0})
check_found project_id d none = err script_parameter_conflict
check_found project_id d (some enum_set) =
    bind (check (not (enum_set.project_id == project_id)) script_parameter_conflict) (λ u.
      check (not (elem d.default_value (option_values enum_set.options))) script_parameter_conflict)

abbrev pub check_enum :
    Uuid
    → Dict Uuid ParameterEnumSetRecord
    → ScriptParameterDefinition
    → Option Uuid
    → Result (Unit {0})
check_enum project_id enums d none = ok tt
check_enum project_id enums d (some id) = check_found project_id d (lookup id enums)

unfoldable pub validate_parameter_enums :
    Uuid → Dict Uuid ParameterEnumSetRecord → List ScriptParameterDefinition → Result (Unit {0})
validate_parameter_enums project_id enums [] = ok tt
validate_parameter_enums project_id enums (d ∷ definitions) =
    let rest = validate_parameter_enums project_id enums definitions in
    bind (check_enum project_id enums d d.enum_set_id) (λ u. rest)

module _ (scripts : Uuid → Result AutomationScriptRecord) where
  unfoldable pub list_script_parameters : Uuid → ParameterMethod (List ScriptParameterDefinition)
  list_script_parameters script_id = do
    lift (scripts script_id) >>= λ r. pure tt
    gets (λ (s : ParameterRepository). parameters_of (lookup script_id s.parameters))

  unfoldable pub replace_script_parameters :
      Uuid → List ScriptParameterDefinition → ParameterMethod (List ScriptParameterDefinition)
  replace_script_parameters script_id definitions = do
    validated ← lift (validate_parameter_definitions definitions)
    script ← lift (scripts script_id)
    enums ← gets (λ (s : ParameterRepository). s.enums)
    lift (validate_parameter_enums script.project_id enums validated)
    modify (λ (s : ParameterRepository). record s {
      parameters = insert script_id validated s.parameters;
    })
    pure validated
