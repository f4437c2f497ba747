-- ===== src/Connectors/Methods.antt =====
-- services/api/connector_domain.py and ConnectorRepository of services/api/connector_repository.py.
-- The encryptor and `str.casefold` are parameters.
use smarttest_platform.Base.{
  ℕ, ◌+◌, [], List, Bool, true, false, not, ◌||◌, Option, none, some, Result, ok, err, Action, pure,
  bind, check, lift, gets, modify, raise_if, or_raise, ◌>>=◌, ◌>>◌, if◌then◌else◌, ◌==◌, nat_eq,
  leb, ltb, length, is_some,
}
use smarttest_platform.Base.Exec.{
  value_error, key_error, connector_not_found, connector_name_conflict, connector_version_conflict,
  connector_credential_required,
}
use smarttest_platform.Base.Dict.{Dict, lookup, insert, delete, values}
use smarttest_platform.Base.Names.{other_owner}
use smarttest_platform.Base.Text.{Text, text_eq, text_beq, strip}
use smarttest_platform.Base.Sort.{sorted}
use smarttest_platform.Protocol.{Uuid, Time, Json}
use smarttest_platform.Plan.Environments.{EncryptedSecret}

pub data ConnectorKind : Type 0 where
  mcp http : ConnectorKind

pub data ConnectorAuthType : Type 0 where
  no_auth bearer api_key : ConnectorAuthType

-- `is ConnectorAuthType.NONE`
abbrev pub needs_none : ConnectorAuthType → Bool
needs_none ConnectorAuthType.no_auth = true
needs_none _ = false

pub record ConnectorTool : Type 0 where
  pub name : Text
  pub description : Text
  pub input_schema : Json

pub record ConnectorRecord : Type 0 where
  pub id : Uuid
  pub name : Text
  pub description : Text
  pub kind : ConnectorKind
  pub base_url : Text
  pub auth_type : ConnectorAuthType
  pub auth_header : Text
  pub enabled : Bool
  pub timeout_seconds : ℕ
  pub state_version : ℕ
  pub secret_revision : ℕ
  pub credential : Option EncryptedSecret
  pub tools : List ConnectorTool
  pub last_tested_at : Option Time
  pub last_test_success : Option Bool
  pub last_error : Option Text
  pub created_at : Time
  pub updated_at : Time

-- What the create and update calls take beside the identifier, the version and the credential.
pub record ConnectorSettings : Type 0 where
  pub name : Text
  pub description : Text
  pub kind : ConnectorKind
  pub base_url : Text
  pub auth_type : ConnectorAuthType
  pub auth_header : Text
  pub timeout_seconds : ℕ

unfoldable pub validate_connector_name : Text → Result Text
validate_connector_name name =
    bind (check ((length (strip name) == 0) || ltb 255 (length (strip name))) value_error)
      (λ u. ok (strip name))

-- The credential that an authentication needs.
unfoldable pub validate_credential : ConnectorAuthType → Option Text → Result (Unit {0})
validate_credential ConnectorAuthType.no_auth credential = ok tt
validate_credential _ none = err connector_credential_required
validate_credential _ (some c) =
    check ((length c == 0) || ltb 65536 (length c)) connector_credential_required

-- `credential or ""`
abbrev pub credential_text : Option Text → Text
credential_text none = []
credential_text (some c) = c

pub record ConnectorRepository : Type 0 where
  pub connectors : Dict Uuid ConnectorRecord
  pub connector_names : Dict Text Uuid

abbrev pub ConnectorMethod {ℓ} : Type ℓ → Type ℓ
ConnectorMethod A = Action ConnectorRepository A

abbrev pub put_connector : Uuid → ConnectorRecord → ConnectorRepository → ConnectorRepository
put_connector id r s = record s { connectors = insert id r s.connectors }

abbrev pub name_connector : Text → Uuid → ConnectorRepository → ConnectorRepository
name_connector key id s = record s { connector_names = insert key id s.connector_names }

-- `del self._names[key]`, which raises KeyError
unfoldable pub unname_connector : Text → ConnectorMethod (Unit {0})
unname_connector key = do
  found ← gets (λ (s : ConnectorRepository). lookup key s.connector_names)
  or_raise found key_error >>= λ id. pure tt
  modify (λ (s : ConnectorRepository). record s { connector_names = delete key s.connector_names })

unfoldable pub get_connector : Uuid → ConnectorMethod ConnectorRecord
get_connector connector_id s = or_raise (lookup connector_id s.connectors) connector_not_found s

unfoldable pub list_connectors : ConnectorMethod (List ConnectorRecord)
list_connectors s = (
  ok (
      sorted (λ (a : ConnectorRecord) (b : ConnectorRecord). leb a.created_at b.created_at)
        (values s.connectors)),
  s,
)

-- `_check_version`
abbrev pub check_connector_version : ConnectorRecord → ℕ → ConnectorMethod (Unit {0})
check_connector_version r expected =
    raise_if (not (r.state_version == expected)) connector_version_conflict

-- `1 if encrypted else 0`
abbrev pub first_revision : Option EncryptedSecret → ℕ
first_revision none = 0
first_revision (some c) = 1

abbrev pub new_connector :
    Uuid → Text → ConnectorSettings → Option EncryptedSecret → Bool → Time → ConnectorRecord
new_connector uuid name settings encrypted enabled now = record {
  id = uuid;
  name = name;
  description = settings.description;
  kind = settings.kind;
  base_url = settings.base_url;
  auth_type = settings.auth_type;
  auth_header = settings.auth_header;
  enabled = enabled;
  timeout_seconds = settings.timeout_seconds;
  state_version = 0;
  secret_revision = first_revision encrypted;
  credential = encrypted;
  tools = [];
  last_tested_at = none;
  last_test_success = none;
  last_error = none;
  created_at = now;
  updated_at = now;
}

-- `current.update(...)` of `update_connector`
abbrev pub updated_connector :
    ConnectorRecord
    → Text
    → ConnectorSettings
    → Option EncryptedSecret × ℕ
    → Option Bool
    → Time
    → ConnectorRecord
updated_connector r name settings secret enabled now = record r {
  name = name;
  description = settings.description;
  kind = settings.kind;
  base_url = settings.base_url;
  auth_type = settings.auth_type;
  auth_header = settings.auth_header;
  credential = secret.0;
  secret_revision = secret.1;
  enabled = elim enabled [ none ↦ r.enabled | some b ↦ b ];
  timeout_seconds = settings.timeout_seconds;
  state_version = r.state_version + 1;
  updated_at = now;
}

unfoldable pub set_enabled : Uuid → Bool → ℕ → Time → ConnectorMethod ConnectorRecord
set_enabled connector_id enabled expected_version now = do
  current ← get_connector connector_id
  check_connector_version current expected_version
  let updated : ConnectorRecord = record current {
    enabled = enabled;
    state_version = current.state_version + 1;
    updated_at = now;
  }
  modify (put_connector connector_id updated)
  pure updated

-- `tested` and `now` are the two readings of the clock
unfoldable pub record_test :
    Uuid
    → ℕ
    → Bool
    → List ConnectorTool
    → Option Text
    → Time
    → Time
    → ConnectorMethod ConnectorRecord
record_test connector_id expected_version success tools error tested now = do
  current ← get_connector connector_id
  check_connector_version current expected_version
  let updated : ConnectorRecord = record current {
    tools = tools;
    last_tested_at = some tested;
    last_test_success = some success;
    last_error = error;
    state_version = current.state_version + 1;
    updated_at = now;
  }
  modify (put_connector connector_id updated)
  pure updated

module _ (casefold : Text → Text) (encrypt : Text → Uuid → ℕ → Result EncryptedSecret)
    (decrypt : EncryptedSecret → Uuid → ℕ → Result Text) where
  -- the credential of a new connector
  unfoldable pub first_credential :
      ConnectorAuthType → Option Text → Uuid → Result (Option EncryptedSecret)
  first_credential auth_type credential uuid =
      if needs_none auth_type
      then ok none
      else bind (encrypt (credential_text credential) uuid 1) (λ c. ok (some c))

  unfoldable pub create_connector :
      ConnectorSettings → Option Text → Bool → Uuid → Time → ConnectorMethod ConnectorRecord
  create_connector settings credential enabled uuid now = do
    normalized ← lift (validate_connector_name settings.name)
    lift (validate_credential settings.auth_type credential)
    encrypted ← lift (first_credential settings.auth_type credential uuid)
    owner ← gets (λ (s : ConnectorRepository). lookup (casefold normalized) s.connector_names)
    raise_if (is_some owner) connector_name_conflict
    modify (put_connector uuid (new_connector uuid normalized settings encrypted enabled now))
    modify (name_connector (casefold normalized) uuid)
    pure (new_connector uuid normalized settings encrypted enabled now)

  -- the credential and the secret revision of an update
  unfoldable pub next_credential :
      Uuid
      → ConnectorRecord
      → ConnectorAuthType
      → Option Text
      → Bool
      → Result (Option EncryptedSecret × ℕ)
  next_credential connector_id current auth_type credential credential_provided =
      if needs_none auth_type
      then ok (none, current.secret_revision + first_revision current.credential)
      else if credential_provided
      then bind (validate_credential auth_type credential) (λ u.
        bind (encrypt (credential_text credential) connector_id (current.secret_revision + 1))
          (λ c. ok (some c, current.secret_revision + 1)))
      else bind (check (not (is_some current.credential)) connector_credential_required)
          (λ u. ok (current.credential, current.secret_revision))

  unfoldable pub update_connector :
      Uuid
      → ℕ
      → ConnectorSettings
      → Option Text
      → Bool
      → Option Bool
      → Time
      → ConnectorMethod ConnectorRecord
  update_connector connector_id expected_version settings credential credential_provided enabled
        now =
      do
        normalized ← lift (validate_connector_name settings.name)
        current ← get_connector connector_id
        check_connector_version current expected_version
        owner ← gets (λ (s : ConnectorRepository). lookup (casefold normalized) s.connector_names)
        raise_if (other_owner owner connector_id) connector_name_conflict
        secret ←
            lift (
              next_credential connector_id current settings.auth_type credential
                credential_provided)
        let updated = updated_connector current normalized settings secret enabled now
        (if text_beq (casefold normalized) (casefold current.name)
            then pure tt
            else unname_connector (casefold current.name)
              >> modify (name_connector (casefold normalized) connector_id))
        modify (put_connector connector_id updated)
        pure updated

  unfoldable pub delete_connector : Uuid → ConnectorMethod (Unit {0})
  delete_connector connector_id = do
    current ← get_connector connector_id
    modify (λ (s : ConnectorRepository). record s { connectors = delete connector_id s.connectors })
    unname_connector (casefold current.name)

  unfoldable pub credential_for : ConnectorRecord → Result (Option Text)
  credential_for r = elim r.credential [
    | none ↦ ok none
    | some c ↦ bind (decrypt c r.id r.secret_revision) (λ t. ok (some t))
  ]
