-- ===== src/Secrets/Grants.antt =====
-- The grants and InMemorySecretGrantStore. `attempts` is what AttemptReader.get_attempt returns at
-- the time of the call.
use smarttest_platform.Base.{
  ℕ, suc, ◌∷◌, [], List, Bool, true, false, not, ◌&&◌, ◌||◌, Option, none, some, Result, ok, err,
  Action, pure, lift, gets, modify, raise_if, or_raise, ◌>>=◌, ◌>>◌, if◌then◌else◌, ◌==◌, min, leb,
  is_some, opt_beq,
}
use smarttest_platform.Base.Exec.{capability_rejected}
use smarttest_platform.Base.Dict.{Dict, lookup, insert}
use smarttest_platform.Base.Text.{Text, text_beq, text_eq}
use smarttest_platform.Protocol.{Uuid, Time, SecretReference}
use smarttest_platform.Domain.{AttemptState, AttemptRecord}

pub record SecretGrantBinding : Type 0 where
  pub task_id : Uuid
  pub tenant_id : Uuid
  pub project_id : Uuid
  pub run_id : Uuid
  pub attempt_id : Uuid
  pub runner_id : Text
  pub environment_id : Uuid
  pub environment_revision : ℕ
  pub secret_references : List SecretReference

pub record SecretGrantRecord : Type 0 where
  pub id : Uuid
  pub token_digest : Text
  pub binding : SecretGrantBinding
  pub issued_at : Time
  pub expires_at : Time
  pub consumed_at : Option Time
  pub revoked_at : Option Time

-- `==` of two tuples of references
abbrev pub references_beq : List SecretReference → List SecretReference → Bool
references_beq [] [] = true
references_beq (r ∷ rs) (q ∷ qs) =
    text_beq r.category q.category
    && text_beq r.name q.name
    && (r.secret_ref == q.secret_ref)
    && references_beq rs qs
references_beq _ _ = false

-- `==` of two bindings
unfoldable pub binding_beq : SecretGrantBinding → SecretGrantBinding → Bool
binding_beq a b =
    (a.task_id == b.task_id)
    && (a.tenant_id == b.tenant_id)
    && (a.project_id == b.project_id)
    && (a.run_id == b.run_id)
    && (a.attempt_id == b.attempt_id)
    && text_beq a.runner_id b.runner_id
    && (a.environment_id == b.environment_id)
    && (a.environment_revision == b.environment_revision)
    && references_beq a.secret_references b.secret_references

-- self._records
pub record GrantStore : Type 0 where
  pub records : Dict Text SecretGrantRecord

abbrev pub GrantMethod {ℓ} : Type ℓ → Type ℓ
GrantMethod A = Action GrantStore A

abbrev pub put_record : Text → SecretGrantRecord → GrantStore → GrantStore
put_record digest r s = record s { records = insert digest r s.records }

-- ACTIVE_SECRET_STATES
abbrev pub secret_active : AttemptState → Bool
secret_active AttemptState.preparing = true
secret_active AttemptState.running = true
secret_active _ = false

-- attempt.lease_expires_at is None or attempt.lease_expires_at <= now
abbrev pub lease_over : Option Time → Time → Bool
lease_over none now = true
lease_over (some t) now = leb t now

-- the condition of `_valid_attempt`
abbrev pub misfits : SecretGrantBinding → Time → AttemptRecord → Bool
misfits binding now a =
    not (a.run_id == binding.run_id)
    || not (opt_beq a.runner_id (some binding.runner_id))
    || not (secret_active a.state)
    || lease_over a.lease_expires_at now

-- record.consumed_at is not None or record.revoked_at is not None
abbrev pub is_spent : SecretGrantRecord → Bool
is_spent r = is_some r.consumed_at || is_some r.revoked_at

-- `except Exception: raise CapabilityRejected()`
abbrev pub rejected {ℓ} : {A : Type ℓ} → Result A → Result A
rejected (ok a) = ok a
rejected (err e) = err capability_rejected

module _ (attempts : Uuid → Result AttemptRecord) where
  unfoldable pub valid_attempt : SecretGrantBinding → Time → GrantMethod AttemptRecord
  valid_attempt binding now = do
    attempt ← lift (rejected (attempts binding.attempt_id))
    raise_if (misfits binding now attempt) capability_rejected
    pure attempt

  unfoldable pub issue : SecretGrantRecord → Time → GrantMethod SecretGrantRecord
  unfolding valid_attempt
  issue r now = do
    attempt ← valid_attempt r.binding now
    lease_expires_at ← or_raise attempt.lease_expires_at capability_rejected
    let expires_at = min r.expires_at lease_expires_at
    records ← gets (λ (s : GrantStore). s.records)
    raise_if (leb expires_at now || is_some (lookup r.token_digest records)) capability_rejected
    let stored = record r { expires_at = expires_at }
    modify (put_record r.token_digest stored)
    pure stored

  unfoldable pub consume : Text → SecretGrantBinding → Time → GrantMethod SecretGrantRecord
  unfolding valid_attempt
  consume token_digest binding now = do
    valid_attempt binding now >>= λ a. pure tt
    found ← gets (λ (s : GrantStore). lookup token_digest s.records)
    r ← or_raise found capability_rejected
    raise_if (not (binding_beq r.binding binding) || leb r.expires_at now || is_spent r)
        capability_rejected
    let consumed = record r { consumed_at = some now }
    modify (put_record token_digest consumed)
    pure consumed

-- the write of `revoke`, for a record that is there and not spent
abbrev revoke_found : Text → Time → Option SecretGrantRecord → GrantMethod (Unit {0})
revoke_found token_digest now none = pure tt
revoke_found token_digest now (some r) =
    if is_spent r
    then pure tt
    else modify (put_record token_digest (record r { revoked_at = some now }))

unfoldable pub revoke : Text → Time → GrantMethod (Unit {0})
revoke token_digest now = do
  found ← gets (λ (s : GrantStore). lookup token_digest s.records)
  revoke_found token_digest now found

-- record.binding.attempt_id == attempt_id and it is not spent
abbrev pub revocable : Uuid → SecretGrantRecord → Bool
revocable attempt_id r = (r.binding.attempt_id == attempt_id) && not (is_spent r)

-- the loop of `revoke_attempt` over the items at its start
unfoldable pub revoke_each : Uuid → Time → Dict Text SecretGrantRecord → ℕ → GrantMethod ℕ
revoke_each attempt_id now [] count s = (ok count, s)
revoke_each attempt_id now ((digest, r) ∷ items) count s =
    if revocable attempt_id r
    then revoke_each attempt_id now items (suc count)
        (put_record digest (record r { revoked_at = some now }) s)
    else revoke_each attempt_id now items count s

unfoldable pub revoke_attempt : Uuid → Time → GrantMethod ℕ
unfolding revoke_each
revoke_attempt attempt_id now s = revoke_each attempt_id now s.records 0 s
