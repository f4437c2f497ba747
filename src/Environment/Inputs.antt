-- ===== src/Environment/Inputs.antt =====
-- The checks and the encryption of configuration values, of services/api/environment_repository.py.
-- `json.dumps`, the length of its bytes and the encryptor are parameters.
use smarttest_platform.Base.{
  ℕ, suc, ◌∷◌, [], List, ◌++◌, Bool, true, false, not, ◌&&◌, ◌||◌, Option, none, some, is_some,
  is_none, Result, ok, err, bind, check, if◌then◌else◌, ◌==◌, leb, ltb, length, elem, any_of,
  opt_beq, nat_eq,
}
use smarttest_platform.Base.Exec.{value_error, environment_conflict}
use smarttest_platform.Base.Dict.{first_where}
use smarttest_platform.Base.Text.{Text, text, text_eq, text_beq, strip}
use smarttest_platform.Protocol.{Uuid, Json}
use smarttest_platform.Plan.Environments.{
  EncryptedSecret, ConfigurationValue, ConfigurationCategory, EnvironmentRecord,
}

-- `Any` of a value that is given: what the code asks of it is whether it is None or a string.
pub data GivenValue : Type 0 where
  nothing : GivenValue
  string : Text → GivenValue
  other : Json → GivenValue

pub record ConfigurationValueInput : Type 0 where
  pub name : Text
  pub value : GivenValue
  pub secret : Bool
  pub secret_ref : Option Uuid

abbrev is_string : GivenValue → Bool
is_string (GivenValue.string t) = true
is_string _ = false

abbrev is_nothing : GivenValue → Bool
is_nothing GivenValue.nothing = true
is_nothing _ = false

abbrev pub is_variable : ConfigurationCategory → Bool
is_variable ConfigurationCategory.environment_variable = true
is_variable ConfigurationCategory.common_parameter = false

abbrev pub same_category : ConfigurationCategory → ConfigurationCategory → Bool
same_category ConfigurationCategory.environment_variable c = is_variable c
same_category ConfigurationCategory.common_parameter c = not (is_variable c)

unfoldable pub validate_environment_name : Text → Result Text
validate_environment_name name =
    bind (check ((length (strip name) == 0) || ltb 255 (length (strip name))) value_error)
      (λ u. ok (strip name))

-- [A-Za-z_]
abbrev first_char : ℕ → Bool
first_char c = (leb 65 c && leb c 90) || ((leb 97 c && leb c 122) || (c == 95))

-- [A-Za-z0-9_], and `.` and `-` where they are allowed
abbrev later_char : Bool → ℕ → Bool
later_char dotted c =
    first_char c || ((leb 48 c && leb c 57) || (dotted && ((c == 46) || (c == 45))))

-- ENV_KEY_PATTERN.fullmatch and KEY_PATTERN.fullmatch
unfoldable pub matches_key : ConfigurationCategory → Text → Bool
matches_key category [] = false
matches_key category (c ∷ t) =
    first_char c
    && (leb (length t) 127 && not (any_of (λ x. not (later_char (not (is_variable category)) x)) t))

-- the checks of one item that concern its secret
unfoldable pub check_secret : ConfigurationCategory → ConfigurationValueInput → Result (Unit {0})
check_secret category item =
    if item.secret
    then bind (check (is_none item.secret_ref && not (is_string item.value)) value_error)
        (λ u. check (is_some item.secret_ref && not (is_nothing item.value)) value_error)
    else bind (check (is_some item.secret_ref) value_error)
        (λ u. check (is_variable category && not (is_string item.value)) value_error)

module _ (dumps : GivenValue → Result Json) (byte_length : Json → ℕ)
    (encrypt : Text → Uuid → Uuid → ℕ → ConfigurationCategory → Text → Result EncryptedSecret)
    (decrypt : EncryptedSecret → Uuid → Uuid → ℕ → ConfigurationCategory → Text → Result Text) where
  -- `names` are those of the items before
  unfoldable pub validate_each :
      ConfigurationCategory → List ConfigurationValueInput → List Text → Result (Unit {0})
  validate_each category [] names = ok tt
  validate_each category (item ∷ items) names =
      bind (check (not (matches_key category item.name)) value_error) (λ u.
        bind (check (elem item.name names) value_error) (λ u.
          bind (check_secret category item) (λ u. bind (dumps item.value) (λ encoded.
            bind (check (ltb 65536 (byte_length encoded)) value_error)
              (λ u. validate_each category items (item.name ∷ names))))))

  unfoldable pub validate_inputs :
      ConfigurationCategory → List ConfigurationValueInput → Result (Unit {0})
  validate_inputs category values =
      bind (check (ltb 100 (length values)) value_error) (λ u. validate_each category values [])

  abbrev is_source : ConfigurationCategory → ConfigurationValueInput → ConfigurationValue → Bool
  is_source category item v =
      same_category v.category category
      && (text_beq v.name item.name && (opt_beq v.secret_ref item.secret_ref && v.secret))

  -- the source of a `secret_ref`
  abbrev decrypt_source : Option ConfigurationValue → EnvironmentRecord → Result Text
  decrypt_source none previous = err environment_conflict
  decrypt_source (some v) previous = elim v.encrypted [
    | none ↦ err environment_conflict
    | some c ↦ decrypt c previous.project_id previous.id previous.revision v.category v.name
  ]

  -- the plaintext of a secret; its checks have refused what is no string
  unfoldable pub plaintext_of :
      ConfigurationCategory → ConfigurationValueInput → Option EnvironmentRecord → Result Text
  plaintext_of category item previous = elim item.secret_ref [
    | some id ↦ elim previous [
      | none ↦ err environment_conflict
      | some r ↦ decrypt_source (first_where (is_source category item) r.values) r
    ]
    | none ↦ elim item.value [
      | string t ↦ ok t
      | nothing ↦ err value_error
      | other j ↦ err value_error
    ]
  ]

  -- A value of an item; `uuid` is drawn for a secret.
  unfoldable pub build_value :
      Uuid
      → Uuid
      → ℕ
      → ConfigurationCategory
      → Option EnvironmentRecord
      → Uuid
      → ConfigurationValueInput
      → Result ConfigurationValue
  build_value project_id environment_id revision category previous uuid item =
      if not item.secret
      then bind (dumps item.value) (λ v. ok (record {
        category = category;
        name = item.name;
        secret = false;
        value = v;
        secret_ref = none;
        encrypted = none;
      }))
      else bind (plaintext_of category item previous) (λ plaintext.
        bind (encrypt plaintext project_id environment_id revision category item.name) (λ c.
          ok (record {
            category = category;
            name = item.name;
            secret = true;
            value = text "null";
            secret_ref = some uuid;
            encrypted = some c;
          })))

  -- the loop over the items of a category; `uuids n` is drawn for item n
  unfoldable pub build_each :
      Uuid
      → Uuid
      → ℕ
      → ConfigurationCategory
      → Option EnvironmentRecord
      → (ℕ → Uuid)
      → List ConfigurationValueInput
      → Result (List ConfigurationValue)
  build_each project_id environment_id revision category previous uuids [] = ok []
  build_each project_id environment_id revision category previous uuids (item ∷ items) =
      bind (build_value project_id environment_id revision category previous (uuids 0) item) (λ v.
        bind
          (build_each project_id environment_id revision category previous (λ n. uuids (suc n))
            items)
          (λ vs. ok (v ∷ vs)))

  unfoldable pub build_configuration_values :
      Uuid
      → Uuid
      → ℕ
      → List ConfigurationValueInput
      → List ConfigurationValueInput
      → Option EnvironmentRecord
      → (ℕ → Uuid)
      → (ℕ → Uuid)
      → Result (List ConfigurationValue)
  build_configuration_values project_id environment_id revision variables parameters previous uuids
        uuids' =
      bind (validate_inputs ConfigurationCategory.environment_variable variables) (λ u.
        bind
          (build_each project_id environment_id revision ConfigurationCategory.environment_variable
            previous uuids variables)
          (λ vs. bind (validate_inputs ConfigurationCategory.common_parameter parameters) (λ u.
            bind
              (build_each project_id environment_id revision ConfigurationCategory.common_parameter
                previous uuids' parameters)
              (λ ws. ok (vs ++ ws)))))
