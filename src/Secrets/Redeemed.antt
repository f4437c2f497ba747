-- ===== src/Secrets/Redeemed.antt =====
-- What a redemption that returns has found, of services/secret_broker.py.
use smarttest_platform.Base.Text.{Text, text_eq, text_beq_iff}
use smarttest_platform.Base.{
  ◌∷◌, List, Option, ◌≡◌, true, false, arith, none, ◌⊎◌, some, ok, Option-cases, inl, ◌<◌, ap,
  Result, inr, sym, ◌∙◌, Result-cases, refl, [],
}
use smarttest_platform.Secrets.Grants.{
  binding_beq, SecretGrantRecord, SecretGrantBinding, is_spent, secret_active, references_beq,
  lease_over, misfits, GrantStore,
}
use smarttest_platform.Domain.State.{AttemptState}
use smarttest_platform.Secrets.Broker.{
  presented, binding_of, SecretResolver, redeem, ResolvedSecretValue, canonical_secret_references,
}
use smarttest_platform.Protocol.{SecretReference, Time, TaskEnvelope, Uuid}
use smarttest_platform.Domain.Records.{AttemptRecord}
use smarttest_platform.Base.Tests.{opt_beq_iff}
use smarttest_platform.Base.Dict.{lookup}
use smarttest_platform.Secrets.Use.{consumed}

references_beq_sound : (rs qs : List SecretReference) → references_beq rs qs ≡ true → rs ≡ qs
references_beq_sound [] [] h = refl
references_beq_sound [] (q ∷ qs) h = cc
references_beq_sound (r ∷ rs) [] h = cc
references_beq_sound (r ∷ rs) (q ∷ qs) h =
    same (ground (arith, text_beq_iff r.category q.category))
      (ground (arith, text_beq_iff r.name q.name)) (ground arith)
      (references_beq_sound rs qs (ground arith))
  where
    same :
        r.category ≡ q.category
        → r.name ≡ q.name
        → r.secret_ref ≡ q.secret_ref
        → rs ≡ qs
        → r ∷ rs ≡ q ∷ qs
    same category name secret_ref rest = cc

-- Bindings that are equal by the test are equal.
binding_beq_sound : (a b : SecretGrantBinding) → binding_beq a b ≡ true → a ≡ b
unfolding binding_beq
binding_beq_sound a b h =
    same (ground arith) (ground arith) (ground arith) (ground arith) (ground arith)
      (ground (arith, text_beq_iff a.runner_id b.runner_id)) (ground arith) (ground arith)
      (references_beq_sound a.secret_references b.secret_references (ground arith))
  where
    same :
        a.task_id ≡ b.task_id
        → a.tenant_id ≡ b.tenant_id
        → a.project_id ≡ b.project_id
        → a.run_id ≡ b.run_id
        → a.attempt_id ≡ b.attempt_id
        → a.runner_id ≡ b.runner_id
        → a.environment_id ≡ b.environment_id
        → a.environment_revision ≡ b.environment_revision
        → a.secret_references ≡ b.secret_references
        → a ≡ b
    same t u v w x y z p q = cc

unspent :
    (r : SecretGrantRecord) → is_spent r ≡ false → (r.consumed_at ≡ none) × (r.revoked_at ≡ none)
unspent r h = elim (Option-cases r.consumed_at) [
  | inr (t, e) ↦ absurd (cc (consumed_too t e h))
  | inl e ↦ elim (Option-cases r.revoked_at) [
    | inr (t, f) ↦ absurd (revoked_too t e f h)
    | inl f ↦ (e, f)
  ]
]
  where
    consumed_too : (t : Time) → r.consumed_at ≡ some t → is_spent r ≡ false → true ≡ false
    consumed_too t e = rw e (λ k. k)

    revoked_too : (t : Time) → r.consumed_at ≡ none → r.revoked_at ≡ some t → is_spent r ≡ false → ⊥
    revoked_too t e f = rw (e, f) (λ k. cc)

active_states :
    (st : AttemptState)
    → secret_active st ≡ true
    → (st ≡ AttemptState.preparing) ⊎ (st ≡ AttemptState.running)
active_states AttemptState.preparing h = inl refl
active_states AttemptState.running h = inr refl
active_states _ h = cc

open_lease :
    (o : Option Time) (now : Time)
    → lease_over o now ≡ false
    → (t : Time) × (o ≡ some t) × (now < t)
open_lease none now h = cc
open_lease (some t) now h = (t, refl, ground arith)

-- What an attempt that a capability may be used for is like.
fits :
    (binding : SecretGrantBinding) (now : Time) (a : AttemptRecord)
    → misfits binding now a ≡ false
    → (a.run_id ≡ binding.run_id)
      × (a.runner_id ≡ some binding.runner_id)
      × ((a.state ≡ AttemptState.preparing) ⊎ (a.state ≡ AttemptState.running))
      × ((t : Time) × (a.lease_expires_at ≡ some t) × (now < t))
fits binding now a h = (
  ground arith,
  (opt_beq_iff a.runner_id (some binding.runner_id)).0 (ground arith),
  active_states a.state (ground arith),
  open_lease a.lease_expires_at now (ground arith),
)

presented_names :
    (task : TaskEnvelope) (runner_id : Text) (binding : SecretGrantBinding)
    → presented task runner_id ≡ ok binding
    → (binding.run_id ≡ task.run_id)
      × (binding.attempt_id ≡ task.attempt_id)
      × (binding.runner_id ≡ runner_id)
unfolding presented binding_of
presented_names task runner_id binding =
    elim (Result-cases (canonical_secret_references task.secret_references)) [
      | inr (x, e) ↦ rw e (λ h. cc)
      | inl (references, e) ↦ elim (Option-cases task.environment_id) [
        | inl f ↦ rw (e, f) (λ h. cc)
        | inr (id, f) ↦ elim (Option-cases task.environment_revision) [
          | inl g ↦ rw (e, f, g) (λ h. cc)
          | inr (n, g) ↦ rw (e, f, g) (λ h. names _ h refl refl refl)
        ]
      ]
    ]
  where
    names :
        (made : SecretGrantBinding)
        → ok made ≡ ok binding
        → made.run_id ≡ task.run_id
        → made.attempt_id ≡ task.attempt_id
        → made.runner_id ≡ runner_id
        → (binding.run_id ≡ task.run_id)
          × (binding.attempt_id ≡ task.attempt_id)
          × (binding.runner_id ≡ runner_id)
    names made h run attempt runner =
        let same : made ≡ binding = cc in
        (
          ap (λ (x : SecretGrantBinding). x.run_id) (sym same) ∙ run,
          ap (λ (x : SecretGrantBinding). x.attempt_id) (sym same) ∙ attempt,
          ap (λ (x : SecretGrantBinding). x.runner_id) (sym same) ∙ runner,
        )

module _ (sha256 : Text → Text) (resolver : SecretResolver) where
  -- Secrets come out of a redemption only for the attempt and the runner that the grant names: a
  -- redemption that returns found under the token's digest a grant that was neither consumed nor
  -- revoked and whose expiry is still to come, with the run and the attempt of the task and with
  -- the runner, and in all with the binding that the redemption presents; and it found the task's
  -- attempt, of the task's run, held by the runner, in state PREPARING or RUNNING, with a lease
  -- whose end is still to come.
  pub redeem_guarded :
      (attempts : Uuid → Result AttemptRecord) (token : Text) (task : TaskEnvelope)
      (runner_id : Text) (now : Time) (s : GrantStore) (secrets : List ResolvedSecretValue)
      → (redeem sha256 resolver attempts token task runner_id now s).0 ≡ ok secrets
      → (r : SecretGrantRecord) × (a : AttemptRecord) × (t : Time) × (lookup
            (sha256 token)
            s.records
          ≡ some r)
        × (presented task runner_id ≡ ok r.binding)
        × (r.binding.run_id ≡ task.run_id)
        × (r.binding.attempt_id ≡ task.attempt_id)
        × (r.binding.runner_id ≡ runner_id)
        × (now < r.expires_at)
        × (r.consumed_at ≡ none)
        × (r.revoked_at ≡ none)
        × (attempts task.attempt_id ≡ ok a)
        × (a.run_id ≡ task.run_id)
        × (a.runner_id ≡ some runner_id)
        × ((a.state ≡ AttemptState.preparing) ⊎ (a.state ≡ AttemptState.running))
        × (a.lease_expires_at ≡ some t)
        × (now < t)
  unfolding redeem
  redeem_guarded attempts token task runner_id now s secrets =
      elim (Result-cases (presented task runner_id)) [
        | inr (x, e) ↦ rw e (λ h. cc)
        | inl (binding, e) ↦ elim (consumed attempts (sha256 token) binding now s) [
          | inl (same, refused) ↦ rw e (rw refused (λ h. cc))
          | inr (r, a, g, m, f, b, t, sp, done) ↦
              let (run, attempt, runner) = presented_names task runner_id binding e in
              let (held, owner, state, until) = fits binding now a m in
              let (ends, lease, still) = until in
              let bound = binding_beq_sound r.binding binding b in
              let (unused, kept) = unspent r sp in
              rw e (
                rw done (λ h. (
                  r,
                  a,
                  ends,
                  f,
                  ap ok (sym bound),
                  ap (λ (x : SecretGrantBinding). x.run_id) bound ∙ run,
                  ap (λ (x : SecretGrantBinding). x.attempt_id) bound ∙ attempt,
                  ap (λ (x : SecretGrantBinding). x.runner_id) bound ∙ runner,
                  ground arith,
                  unused,
                  kept,
                  ap attempts (sym attempt) ∙ g,
                  held ∙ run,
                  owner ∙ ap some runner,
                  state,
                  lease,
                  still,
                )))
        ]
      ]
