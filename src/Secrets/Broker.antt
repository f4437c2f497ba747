-- ===== src/Secrets/Broker.antt =====
-- SecretBroker on the in-memory store, and `canonical_secret_references` of
-- services/api/environment_repository.py. The resolver is a parameter, as in the source; so are
-- the digest, the random token and the clock.
use smarttest_platform.Base.{
  ℕ, ◌+◌, ◌*◌, ◌∷◌, [], List, Bool, true, false, ◌&&◌, ◌||◌, Option, none, some, Result, ok, err,
  pure, lift, ◌>>=◌, ◌>>◌, if◌then◌else◌, ◌==◌, min, leb, ltb, bind, check, any_of,
}
use smarttest_platform.Base.Exec.{capability_rejected, environment_conflict, value_error}
use smarttest_platform.Base.Text.{Text, text_beq}
use smarttest_platform.Protocol.{SecretReference, Uuid, TaskEnvelope, Time}
use smarttest_platform.Base.Int.{ℤ, is_nonpositive, to_nat}
use smarttest_platform.Secrets.Grants.{
  SecretGrantBinding, rejected, SecretGrantRecord, GrantMethod, issue, consume, revoke,
  revoke_attempt,
}
use smarttest_platform.Base.Sort.{sorted}
use smarttest_platform.Domain.Records.{AttemptRecord}

-- `a < b` of two strings
abbrev text_ltb : Text → Text → Bool
text_ltb [] [] = false
text_ltb [] (b ∷ t) = true
text_ltb (a ∷ s) [] = false
text_ltb (a ∷ s) (b ∷ t) = ltb a b || ((a == b) && text_ltb s t)

-- The order of the keys `(category, name, str(secret_ref))`; the strings of two identifiers are
-- in the order of the identifiers.
abbrev reference_leb : SecretReference → SecretReference → Bool
reference_leb a b =
    text_ltb a.category b.category
    || (text_beq a.category b.category
        && (text_ltb a.name b.name || (text_beq a.name b.name && leb a.secret_ref b.secret_ref)))

-- two references with one identity
abbrev same_reference : SecretReference → SecretReference → Bool
same_reference a b =
    text_beq a.category b.category && text_beq a.name b.name && (a.secret_ref == b.secret_ref)

-- len(identities) != len(set(identities))
abbrev repeats : List SecretReference → Bool
repeats [] = false
repeats (r ∷ rs) = any_of (same_reference r) rs || repeats rs

unfoldable pub canonical_secret_references : List SecretReference → Result (List SecretReference)
canonical_secret_references references =
    if repeats references then err environment_conflict else ok (sorted reference_leb references)

pub record ResolvedSecretValue : Type 0 where
  pub category : Text
  pub name : Text
  pub secret_ref : Uuid
  pub value : Text

-- The methods of SecretResolver; each may raise.
pub record SecretResolver : Type 0 where
  pub validate_secret_references :
      Uuid → Uuid → ℕ → List SecretReference → Result (List SecretReference)
  pub resolve_secret_values :
      Uuid → Uuid → ℕ → List SecretReference → Result (List ResolvedSecretValue)

-- `timedelta(seconds=ttl_seconds)` of a positive TTL, in microseconds
unfoldable pub broker_ttl : ℤ → Result Time
broker_ttl ttl_seconds =
    bind (check (is_nonpositive ttl_seconds) value_error) (λ u. ok (1000000 * to_nat ttl_seconds))

abbrev bound :
    TaskEnvelope → Text → List SecretReference → Option Uuid → Option ℕ → Result SecretGrantBinding
bound task runner_id references (some environment_id) (some environment_revision) = ok record {
  task_id = task.task_id;
  tenant_id = task.tenant_id;
  project_id = task.project_id;
  run_id = task.run_id;
  attempt_id = task.attempt_id;
  runner_id = runner_id;
  environment_id = environment_id;
  environment_revision = environment_revision;
  secret_references = references;
}
bound task runner_id references _ _ = err capability_rejected

-- `_binding`
unfoldable pub binding_of : TaskEnvelope → Text → List SecretReference → Result SecretGrantBinding
binding_of task runner_id references =
    bound task runner_id references task.environment_id task.environment_revision

abbrev is_empty {ℓ} : {A : Type ℓ} → List A → Bool
is_empty [] = true
is_empty (x ∷ xs) = false

-- the binding that a redemption presents
unfoldable pub presented : TaskEnvelope → Text → Result SecretGrantBinding
unfolding binding_of canonical_secret_references
presented task runner_id = rejected (
    bind (canonical_secret_references task.secret_references)
      (λ references. binding_of task runner_id references))

module _ (sha256 : Text → Text) (resolver : SecretResolver) where
  -- the guard of `issue`, and what `validate_secret_references` answers
  unfoldable pub validated : TaskEnvelope → Text → Result (List SecretReference)
  validated task runner_id = elim task.environment_id [
    | none ↦ err capability_rejected
    | some environment_id ↦ elim task.environment_revision [
      | none ↦ err capability_rejected
      | some revision ↦
          bind (check (is_empty task.secret_references || is_empty runner_id) capability_rejected)
            (λ u. rejected (
              resolver.validate_secret_references task.project_id environment_id revision
                task.secret_references))
    ]
  ]

  -- the record of a new capability
  abbrev new_grant : Time → Uuid → Text → SecretGrantBinding → Time → Time → SecretGrantRecord
  new_grant ttl uuid token binding now deadline = record {
    id = uuid;
    token_digest = sha256 token;
    binding = binding;
    issued_at = now;
    expires_at = min (now + ttl) deadline;
    consumed_at = none;
    revoked_at = none;
  }

  module _ (attempts : Uuid → Result AttemptRecord) where
    -- `ttl` is the broker's, `token` and `uuid` are drawn, `now` is the reading of the clock
    unfoldable pub issue_capability :
        Time → TaskEnvelope → Text → Text → Uuid → Time → GrantMethod Text
    issue_capability ttl task runner_id token uuid now = do
      references ← lift (validated task runner_id)
      binding ← lift (binding_of task runner_id references)
      issuing (issue attempts (new_grant ttl uuid token binding now task.deadline) now) token
      where
        issuing : GrantMethod SecretGrantRecord → Text → GrantMethod Text
        issuing m token s = let (r, s') = m s in (bind (rejected r) (λ stored. ok token), s')

    unfoldable pub redeem :
        Text → TaskEnvelope → Text → Time → GrantMethod (List ResolvedSecretValue)
    redeem token task runner_id now = do
      binding ← lift (presented task runner_id)
      consume attempts (sha256 token) binding now >>= λ r. pure tt
      lift (
          rejected (
            resolver.resolve_secret_values binding.project_id binding.environment_id
              binding.environment_revision binding.secret_references))

  unfoldable pub revoke_capability : Text → Time → GrantMethod (Unit {0})
  revoke_capability token now = revoke (sha256 token) now

  unfoldable pub revoke_attempt_capabilities : Uuid → Time → GrantMethod ℕ
  revoke_attempt_capabilities attempt_id now = revoke_attempt attempt_id now
