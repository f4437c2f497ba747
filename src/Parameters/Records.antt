-- ===== src/Parameters/Records.antt =====
-- services/api/parameter_domain.py, and the checks of services/api/parameter_repository.py. A JSON
-- scalar is its canonical text, which is what `json_identity` computes of a finite one.
use smarttest_platform.Base.{
  ℕ, ◌+◌, ◌∷◌, [], List, Bool, true, false, not, ◌&&◌, ◌||◌, Option, Result, ok, bind, check, ◌==◌,
  nat_eq, leb, ltb, length, elem, is_none, is_some,
}
use smarttest_platform.Base.Exec.{value_error, script_parameter_conflict}
use smarttest_platform.Base.Text.{Text, text_eq, strip}
use smarttest_platform.Base.Int.{ℤ, pos, negsuc, to_nat}
use smarttest_platform.Base.Sort.{sorted}
use smarttest_platform.Protocol.{Uuid, Time, Json}

pub data ParameterInputType : Type 0 where
  text number integer boolean enum : ParameterInputType

-- `is ParameterInputType.ENUM`
abbrev pub is_enum : ParameterInputType → Bool
is_enum ParameterInputType.enum = true
is_enum _ = false

pub record ParameterEnumOption : Type 0 where
  pub label : Text
  pub value : Json

pub record ParameterEnumSetRecord : Type 0 where
  pub id : Uuid
  pub project_id : Uuid
  pub name : Text
  pub description : Text
  pub options : List ParameterEnumOption
  pub state_version : ℕ
  pub created_at : Time
  pub updated_at : Time

-- ParameterEnumSetRecord.update
abbrev pub updated_enum_set :
    ParameterEnumSetRecord → Text → Text → List ParameterEnumOption → Time → ParameterEnumSetRecord
updated_enum_set r name description options now = record r {
  name = name;
  description = description;
  options = options;
  state_version = r.state_version + 1;
  updated_at = now;
}

pub record ScriptParameterDefinition : Type 0 where
  pub name : Text
  pub label : Text
  pub input_type : ParameterInputType
  pub required : Bool
  pub enum_set_id : Option Uuid
  pub default_value : Json
  pub position : ℤ

-- `not text or len(text) > 255`
abbrev pub bad_label : Text → Bool
bad_label label = (length label == 0) || ltb 255 (length label)

-- the values of the options
abbrev pub option_values : List ParameterEnumOption → List Json
option_values [] = []
option_values (o ∷ options) = o.value ∷ option_values options

-- the loop over the options, on the identities so far
unfoldable pub validate_options :
    List ParameterEnumOption → List Json → Result (List ParameterEnumOption)
validate_options [] identities = ok []
validate_options (o ∷ options) identities =
    let rest = validate_options options (o.value ∷ identities) in
    bind (check (bad_label (strip o.label)) value_error) (λ u.
      bind (check (elem o.value identities) value_error)
        (λ v. bind rest (λ done. ok (record { label = strip o.label; value = o.value } ∷ done))))

unfoldable pub validate_enum_values :
    Text → List ParameterEnumOption → Result (Text × List ParameterEnumOption)
validate_enum_values name options =
    bind (check (bad_label (strip name)) value_error)
      (λ u. bind (validate_options options []) (λ validated. ok (strip name, validated)))

abbrev letter_or_underscore : ℕ → Bool
letter_or_underscore c = (leb b'A' c && leb c b'Z') || (leb b'a' c && leb c b'z') || (c == b'_')

abbrev name_tail : Text → Bool
name_tail [] = true
name_tail (c ∷ s) = (letter_or_underscore c || (leb b'0' c && leb c b'9')) && name_tail s

-- PARAMETER_NAME_PATTERN.fullmatch: `[A-Za-z_][A-Za-z0-9_]{0,127}`
unfoldable pub parameter_name : Text → Bool
parameter_name [] = false
parameter_name (c ∷ s) = letter_or_underscore c && name_tail s && leb (length s) 127

-- `position < 0 or position in positions`
abbrev pub bad_position : ℤ → List ℕ → Bool
bad_position (pos n) positions = elem n positions
bad_position (negsuc n) positions = true

-- the loop over the definitions, on the names and the positions so far
unfoldable pub validate_definitions :
    List ScriptParameterDefinition → List Text → List ℕ → Result (List ScriptParameterDefinition)
validate_definitions [] names positions = ok []
validate_definitions (d ∷ definitions) names positions =
    let rest = validate_definitions definitions (d.name ∷ names) (to_nat d.position ∷ positions) in
    bind (check (not (parameter_name d.name) || elem d.name names) script_parameter_conflict) (λ u.
      bind (check (bad_label (strip d.label)) script_parameter_conflict) (λ v.
        bind (check (bad_position d.position positions) script_parameter_conflict) (λ w.
          bind (check (is_enum d.input_type && is_none d.enum_set_id) script_parameter_conflict)
            (λ x.
              bind
                (check (not (is_enum d.input_type) && is_some d.enum_set_id)
                  script_parameter_conflict)
                (λ y. bind rest (λ done. ok (record d { label = strip d.label } ∷ done)))))))

unfoldable pub validate_parameter_definitions :
    List ScriptParameterDefinition → Result (List ScriptParameterDefinition)
validate_parameter_definitions definitions =
    bind (validate_definitions definitions [] []) (λ validated. ok (
      sorted
        (λ (a : ScriptParameterDefinition) (b : ScriptParameterDefinition).
          leb (to_nat a.position) (to_nat b.position))
        validated))
