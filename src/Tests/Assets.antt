-- ===== src/Tests/Assets.antt =====
-- Capabilities in use.
use smarttest_platform.Domain.{AttemptState}
use smarttest_platform.Secrets.Use.{Call, run_calls}
use smarttest_platform.Base.Text.{text_eq}
use smarttest_platform.Base.{
  ◌≡◌, refl, some, none, ok, err, true, [], ◌∷◌, nat_eq, ◌<◌, Result, if◌then◌else◌, ◌==◌,
  attempt_not_found, capability_rejected, ◌⊎◌,
}
use smarttest_platform.Domain.Records.{AttemptRecord}
use smarttest_platform.Protocol.{Uuid, Time}
use smarttest_platform.Secrets.Broker.{
  SecretResolver, redeem, presented, binding_of, revoke_capability, canonical_secret_references,
}
use smarttest_platform.Secrets.Grants.{
  GrantStore, SecretGrantRecord, binding_beq, valid_attempt, is_spent, consume, revoke_attempt,
  revoke_each,
}
use smarttest_platform.Tests.Store.{sha}
use smarttest_platform.Tests.Manage.{task}
use smarttest_platform.Base.Text.{text, text_beq}
use smarttest_platform.Base.Dict.{lookup, insert, Distinct}
use smarttest_platform.Secrets.Redeemed.{redeem_guarded}
use smarttest_platform.Secrets.Use.{revoked_never_redeemed, Call, redeem_once}
use smarttest_platform.Base.Sort.{sorted, place}
use smarttest_platform.Secrets.Revocation.{revoke_attempt_complete}

-- An attempt that runs, and its capability.
abbrev running_attempt : AttemptRecord
running_attempt = record {
  id = 9;
  run_id = 7;
  state = AttemptState.running;
  created_at = 1;
  updated_at = 4;
  state_version = 3;
  outcome = none;
  duration_ms = none;
  summary = none;
  completed_at = none;
  runner_id = some (text "runner");
  heartbeat_at = some 4;
  lease_expires_at = some 60000000;
}

abbrev attempts : Uuid → Result AttemptRecord
attempts k = if k == 9 then ok running_attempt else err attempt_not_found

abbrev resolver : SecretResolver
resolver = record {
  validate_secret_references = λ p e v rs. ok rs;
  resolve_secret_values = λ p e v rs. ok [];
}

abbrev grant : SecretGrantRecord
grant = record {
  id = 31;
  token_digest = text "token";
  binding = record {
    task_id = 11;
    tenant_id = 1;
    project_id = 2;
    run_id = 7;
    attempt_id = 9;
    runner_id = text "runner";
    environment_id = 3;
    environment_revision = 1;
    secret_references =
        record { category = text "environment_variable"; name = text "TOKEN"; secret_ref = 5 } ∷ [];
  };
  issued_at = 5;
  expires_at = 30000005;
  consumed_at = none;
  revoked_at = none;
}

-- The store after the issue of the capability.
abbrev issued : GrantStore
issued = record { records = (text "token", grant) ∷ [] }

redeemed : (redeem sha resolver attempts (text "token") task (text "runner") 6 issued).0 ≡ ok []
unfolding binding_of valid_attempt redeem presented canonical_secret_references consume binding_beq
    lookup insert text_beq sorted place
redeemed = refl

redeem_once_example :
    (redeem sha resolver attempts (text "token") task (text "runner") 8 (
      run_calls
        (Call.revokes (text "x") 7 ∷ [])
        (redeem sha resolver attempts (text "token") task (text "runner") 6 issued).1)).0
    ≡ err capability_rejected
redeem_once_example =
    redeem_once sha resolver attempts attempts (text "token") task task (text "runner")
      (text "runner") 6 8 (Call.revokes (text "x") 7 ∷ []) issued [] redeemed

redeem_guarded_example :
    (r : SecretGrantRecord) × (a : AttemptRecord) × (t : Time) × (lookup
        (sha (text "token"))
        issued.records
      ≡ some r)
    × (presented task (text "runner") ≡ ok r.binding)
    × (r.binding.run_id ≡ task.run_id)
    × (r.binding.attempt_id ≡ task.attempt_id)
    × (r.binding.runner_id ≡ text "runner")
    × (6 < r.expires_at)
    × (r.consumed_at ≡ none)
    × (r.revoked_at ≡ none)
    × (attempts task.attempt_id ≡ ok a)
    × (a.run_id ≡ task.run_id)
    × (a.runner_id ≡ some (text "runner"))
    × ((a.state ≡ AttemptState.preparing) ⊎ (a.state ≡ AttemptState.running))
    × (a.lease_expires_at ≡ some t)
    × (6 < t)
redeem_guarded_example =
    redeem_guarded sha resolver attempts (text "token") task (text "runner") 6 issued [] redeemed

grant_found : lookup (sha (text "token")) issued.records ≡ some grant
unfolding lookup text_beq
grant_found = refl

revoked_never_redeemed_example :
    (redeem sha resolver attempts
      (text "token")
      task
      (text "runner")
      8
      (run_calls [] (revoke_capability sha resolver (text "token") 6 issued).1)).0
    ≡ err capability_rejected
revoked_never_redeemed_example =
    revoked_never_redeemed sha resolver attempts (text "token") task (text "runner") 6 8 [] issued
      grant grant_found

abbrev revoked_grant : SecretGrantRecord
revoked_grant = record grant { revoked_at = some 7 }

revoked_found : lookup (text "token") (revoke_attempt 9 7 issued).1.records ≡ some revoked_grant
unfolding revoke_attempt revoke_each lookup insert text_beq
revoked_found = refl

one_grant : Distinct issued.records
unfolding lookup
one_grant = (refl, tt)

revoke_attempt_complete_example : is_spent revoked_grant ≡ true
revoke_attempt_complete_example =
    revoke_attempt_complete 9 7 issued (text "token") revoked_grant one_grant revoked_found refl
