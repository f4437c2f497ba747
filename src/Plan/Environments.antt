-- ===== src/Plan/Environments.antt =====
-- The records of services/api/environment_domain.py.
use smarttest_platform.Base.{ℕ, ◌+◌, Bool, List, Option, Result, ok, err, bind}
use smarttest_platform.Base.Exec.{invalid_environment_transition}
use smarttest_platform.Base.Text.{Text}
use smarttest_platform.Protocol.{Uuid, Time, Json}

pub data EnvironmentStatus : Type 0 where
  draft active archived : EnvironmentStatus

pub data ConfigurationCategory : Type 0 where
  environment_variable common_parameter : ConfigurationCategory

unfoldable pub validate_environment_transition :
    EnvironmentStatus → EnvironmentStatus → Result (Unit {0})
validate_environment_transition EnvironmentStatus.draft EnvironmentStatus.draft = ok tt
validate_environment_transition EnvironmentStatus.draft EnvironmentStatus.active = ok tt
validate_environment_transition EnvironmentStatus.active EnvironmentStatus.active = ok tt
validate_environment_transition EnvironmentStatus.active EnvironmentStatus.archived = ok tt
validate_environment_transition _ _ = err invalid_environment_transition

-- Bytes are lists of numbers.
pub record EncryptedSecret : Type 0 where
  pub ciphertext : List ℕ
  pub tag : List ℕ
  pub nonce : List ℕ
  pub wrapped_dek : List ℕ
  pub wrap_nonce : List ℕ
  pub key_id : Text
  pub algorithm : Text

pub record ConfigurationValue : Type 0 where
  pub category : ConfigurationCategory
  pub name : Text
  pub secret : Bool
  pub value : Json
  pub secret_ref : Option Uuid
  pub encrypted : Option EncryptedSecret

pub record EnvironmentRecord : Type 0 where
  pub id : Uuid
  pub project_id : Uuid
  pub name : Text
  pub status : EnvironmentStatus
  pub revision : ℕ
  pub state_version : ℕ
  pub values : List ConfigurationValue
  pub created_at : Time
  pub updated_at : Time

-- EnvironmentRecord.update
abbrev pub updated_environment :
    EnvironmentRecord
    → Text
    → EnvironmentStatus
    → List ConfigurationValue
    → Time
    → Result EnvironmentRecord
updated_environment r name status values now =
    bind (validate_environment_transition r.status status) (λ u. ok (record r {
      name = name;
      status = status;
      revision = r.revision + 1;
      state_version = r.state_version + 1;
      values = values;
      updated_at = now;
    }))
