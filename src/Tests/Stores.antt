-- ===== src/Tests/Stores.antt =====
-- The stores of projects, parameters, connectors and environments.
use smarttest_platform.Base.Int.{pos}
use smarttest_platform.Base.{
  ℕ, ◌≡◌, refl, ok, arith, [], ◌∷◌, List, nat_eq, pair_eq, none, some, Result, true, map,
}
use smarttest_platform.Base.Dict.{lookup, insert}
use smarttest_platform.Base.Text.{Text, text, text_eq, strip, lstrip, text_beq}
use smarttest_platform.Protocol.{Uuid, SecretReference, Json, Engine}
use smarttest_platform.Plan.Environments.{
  EncryptedSecret, ConfigurationCategory, EnvironmentRecord, EnvironmentStatus,
}
use smarttest_platform.Projects.Methods.{ProjectRepository, ProjectStatus}
use smarttest_platform.Projects.Names.{IsNamed, project_calls-IsNamed}
use smarttest_platform.Projects.Names
use smarttest_platform.Parameters.Methods.{
  ParameterRepository, create_enum_set, replace_script_parameters, validate_parameter_enums,
}
use smarttest_platform.Parameters.Records.{
  ParameterEnumOption, ScriptParameterDefinition, ParameterInputType, validate_enum_values,
  validate_options, validate_parameter_definitions, validate_definitions, parameter_name,
}
use smarttest_platform.Parameters.Backed.{HasDefaults}
use smarttest_platform.Parameters.Defaults.{parameter_calls-HasDefaults}
use smarttest_platform.Parameters.Defaults
use smarttest_platform.Connectors.Methods.{
  ConnectorRepository, ConnectorSettings, ConnectorKind, ConnectorAuthType, ConnectorRecord,
  create_connector, credential_for, new_connector, updated_connector, first_credential,
  validate_connector_name, validate_credential,
}
use smarttest_platform.Connectors.Credentials.{create_connector_roundtrip}
use smarttest_platform.Environment.Inputs.{GivenValue, ConfigurationValueInput}
use smarttest_platform.Environment.Methods.{EnvironmentRepository, create_environment}
use smarttest_platform.Environment.Names.{HasNames, EnvironmentCalls, EnvironmentCalls-HasNames}
use smarttest_platform.Environment.Resolver.{
  resolve_secret_values, reference_identity, validated_record, active_revision, available_values,
  resolve_each, open_value,
}
use smarttest_platform.Environment.Resolved.{resolve_secret_values_lem, resolved_identity}
use smarttest_platform.Secrets.Broker.{canonical_secret_references, ResolvedSecretValue}
use smarttest_platform.Base.Sort.{sorted, place}
use smarttest_platform.Automation.Records.{AutomationScriptRecord, AutomationScriptStatus}

abbrev no_projects : ProjectRepository
no_projects = record { projects = []; project_names = [] }

no_projects-IsNamed : IsNamed no_projects
unfolding lookup
no_projects-IsNamed = (λ k r h. cc, λ n k h. cc)

first_free : lookup 5 no_projects.projects ≡ none
unfolding lookup
first_free = refl

project_calls-IsNamed_example : IsNamed (
    Names.after
      (Names.Call.updates 5 (text "market") [] ProjectStatus.active 0 11)
      (Names.after (Names.Call.creates (text "shop") [] 5 10) no_projects))
project_calls-IsNamed_example = project_calls-IsNamed {s = no_projects} no_projects-IsNamed (
    Names.Calls.next
      (Names.Calls.next Names.Calls.here (Names.Call.creates (text "shop") [] 5 10) first_free)
      (Names.Call.updates 5 (text "market") [] ProjectStatus.active 0 11) tt)

abbrev no_parameters : ParameterRepository
no_parameters = record { enums = []; enum_names = []; parameters = [] }

enum_free : lookup 5 no_parameters.enums ≡ none
unfolding lookup
enum_free = refl

abbrev colours : List ParameterEnumOption
colours = record { label = text "red"; value = text "1" } ∷ []

-- The reader of scripts, with one script of project 2.
abbrev scripts : Uuid → Result AutomationScriptRecord
scripts id = ok record {
  id = id;
  project_id = 2;
  name = text "login";
  description = [];
  engine = Engine.pytest;
  entrypoint = text "login.py";
  source_ref = text "main";
  content_digest = [];
  timeout_seconds = 60;
  status = AutomationScriptStatus.active;
  revision = 1;
  state_version = 0;
  created_at = 1;
  updated_at = 1;
}

abbrev colour : ScriptParameterDefinition
colour = record {
  name = text "colour";
  label = text "Colour";
  input_type = ParameterInputType.enum;
  required = true;
  enum_set_id = some 5;
  default_value = text "1";
  position = pos 0;
}

abbrev enum_made : Defaults.Call
enum_made = Defaults.Call.creates 2 (text "colour") [] colours 5 10

abbrev parameters_set : Defaults.Call
parameters_set = Defaults.Call.replaces scripts 3 (colour ∷ [])

-- The script has its parameter after the two calls.
colour_kept :
    lookup 3 (Defaults.after parameters_set (Defaults.after enum_made no_parameters)).parameters
    ≡ some (colour ∷ [])
unfolding create_enum_set validate_enum_values validate_options replace_script_parameters
    validate_parameter_definitions validate_definitions validate_parameter_enums parameter_name
    sorted place strip lstrip lookup insert text_beq
colour_kept = refl

parameter_calls-HasDefaults_example :
    HasDefaults (Defaults.after parameters_set (Defaults.after enum_made no_parameters))
parameter_calls-HasDefaults_example = parameter_calls-HasDefaults {s = no_parameters} tt (
    Defaults.Calls.next (Defaults.Calls.next Defaults.Calls.here enum_made enum_free) parameters_set
      tt)

-- An encryptor that keeps the text.
abbrev sealed : Text → EncryptedSecret
sealed t = record {
  ciphertext = t;
  tag = [];
  nonce = [];
  wrapped_dek = [];
  wrap_nonce = [];
  key_id = [];
  algorithm = [];
}

abbrev seal : Text → Uuid → ℕ → Result EncryptedSecret
seal t id n = ok (sealed t)

abbrev unseal : EncryptedSecret → Uuid → ℕ → Result Text
unseal c id n = ok c.ciphertext

unseals :
    (t : Text) (id : Uuid) (n : ℕ) (c : EncryptedSecret) → seal t id n ≡ ok c → unseal c id n ≡ ok t
unseals t id n c h = ground arith

abbrev as_it_is : Text → Text
as_it_is t = t

abbrev crm : ConnectorSettings
crm = record {
  name = text "crm";
  description = [];
  kind = ConnectorKind.http;
  base_url = text "http://crm";
  auth_type = ConnectorAuthType.bearer;
  auth_header = text "Authorization";
  timeout_seconds = 30;
}

abbrev no_connectors : ConnectorRepository
no_connectors = record { connectors = []; connector_names = [] }

abbrev crm_record : ConnectorRecord
crm_record = new_connector 5 (text "crm") crm (some (sealed (text "key"))) true 10

crm_created :
    (create_connector as_it_is seal unseal crm (some (text "key")) true 5 10 no_connectors).0
    ≡ ok crm_record
unfolding create_connector first_credential validate_connector_name validate_credential strip lstrip
    lookup
crm_created = refl

create_connector_roundtrip_example :
    (lookup 5
        (create_connector as_it_is seal unseal crm
          (some (text "key"))
          true
          5
          10
          no_connectors).1.connectors
      ≡ some crm_record)
    × (credential_for as_it_is seal unseal crm_record ≡ ok (some (text "key")))
create_connector_roundtrip_example =
    create_connector_roundtrip as_it_is seal unseal unseals crm (text "key") true 5 10 no_connectors
      crm_record refl crm_created

abbrev one_connector : ConnectorRepository
one_connector = record { connectors = (5, crm_record) ∷ []; connector_names = (text "crm", 5) ∷ [] }

abbrev new_crm_record : ConnectorRecord
new_crm_record =
    updated_connector crm_record (text "crm") crm (some (sealed (text "new")), 2) none 11

abbrev no_environments : EnvironmentRepository
no_environments = record { environments = []; revisions = []; environment_names = [] }

no_environments-HasNames : HasNames no_environments
unfolding lookup
no_environments-HasNames = (λ k r h. cc, λ n k h. cc)

environment_free : lookup 5 no_environments.environments ≡ none
unfolding lookup
environment_free = refl

-- `json.dumps`, but for the quotes.
abbrev dumps : GivenValue → Result Json
dumps GivenValue.nothing = ok (text "null")
dumps (GivenValue.string t) = ok t
dumps (GivenValue.other j) = ok j

abbrev byte_length : Json → ℕ
byte_length t = 4

abbrev encrypt_value :
    Text → Uuid → Uuid → ℕ → ConfigurationCategory → Text → Result EncryptedSecret
encrypt_value t p e n c name = ok (sealed t)

abbrev decrypt_value :
    EncryptedSecret → Uuid → Uuid → ℕ → ConfigurationCategory → Text → Result Text
decrypt_value s p e n c name = ok s.ciphertext

abbrev uuid_from : ℕ → Uuid
uuid_from n = n

abbrev given_token : List ConfigurationValueInput
given_token =
    record {
      name = text "TOKEN";
      value = GivenValue.string (text "s3");
      secret = true;
      secret_ref = none;
    }
    ∷ []

EnvironmentCalls-HasNames_example :
    HasNames
      (create_environment dumps byte_length encrypt_value decrypt_value 2
        (text "test")
        given_token
        []
        5
        uuid_from
        uuid_from
        10
        no_environments).1
EnvironmentCalls-HasNames_example =
    EnvironmentCalls-HasNames dumps byte_length encrypt_value decrypt_value {s = no_environments}
      no_environments-HasNames
      (EnvironmentCalls.creates EnvironmentCalls.here 2 (text "test") given_token [] 5 uuid_from
        uuid_from 10 environment_free)

abbrev staging : EnvironmentRecord
staging = record {
  id = 5;
  project_id = 2;
  name = text "staging";
  status = EnvironmentStatus.active;
  revision = 1;
  state_version = 1;
  values =
      record {
        category = ConfigurationCategory.environment_variable;
        name = text "TOKEN";
        secret = true;
        value = text "null";
        secret_ref = some 9;
        encrypted = some (sealed (text "s3"));
      }
      ∷ [];
  created_at = 10;
  updated_at = 11;
}

abbrev staging_revision : Uuid → ℕ → Result EnvironmentRecord
staging_revision id revision = ok staging

abbrev token_reference : SecretReference
token_reference = record {
  category = text "environment_variable";
  name = text "TOKEN";
  secret_ref = 9;
}

abbrev token_value : ResolvedSecretValue
token_value = record {
  category = text "environment_variable";
  name = text "TOKEN";
  secret_ref = 9;
  value = text "s3";
}

token_resolved :
    resolve_secret_values decrypt_value staging_revision 2 5 1 (token_reference ∷ [])
    ≡ ok (token_value ∷ [])
unfolding resolve_secret_values validated_record active_revision canonical_secret_references
    available_values resolve_each open_value lookup insert text_beq sorted
token_resolved = refl

resolve_secret_values_lem_example :
    (canonical : List SecretReference) × (canonical_secret_references (token_reference ∷ [])
      ≡ ok canonical)
    × (map resolved_identity (token_value ∷ []) ≡ map reference_identity canonical)
resolve_secret_values_lem_example =
    resolve_secret_values_lem decrypt_value staging_revision 2 5 1 (token_reference ∷ [])
      (token_value ∷ []) token_resolved
