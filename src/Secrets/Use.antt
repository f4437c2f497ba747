-- ===== src/Secrets/Use.antt =====
-- The use of capabilities of services/secret_broker.py, with any calls on the store in between.
use smarttest_platform.Base.{
  ℕ, suc, ◌∷◌, [], List, true, false, Option, some, Result, ok, err, ◌≡◌, refl, Option-cases,
  Bool-cases, Result-cases, ◌⊎◌, inl, inr, leb, min, is_some, Error, clash, ap,
}
use smarttest_platform.Base.Exec.{capability_rejected}
use smarttest_platform.Base.Dict.{
  Dict, lookup, lookup-insert, lookup-insert_self, lookup-insert_free,
}
use smarttest_platform.Base.Text.{Text, text_eq}
use smarttest_platform.Secrets.Grants.{
  SecretGrantRecord, issue, consume, GrantStore, valid_attempt, is_spent, put_record, misfits,
  SecretGrantBinding, binding_beq, revoke, revoke_each, revoke_attempt, revocable, rejected,
}
use smarttest_platform.Protocol.{Time, Uuid, TaskEnvelope}
use smarttest_platform.Domain.Records.{AttemptRecord}
use smarttest_platform.Secrets.Broker.{
  SecretResolver, redeem, ResolvedSecretValue, presented, revoke_capability,
}

-- The grant under a digest was consumed or revoked.
abbrev pub Spent : Text → GrantStore → Type 0
Spent digest s = (r : SecretGrantRecord) × (lookup digest s.records ≡ some r) × (is_spent r ≡ true)

put-Spent :
    (k digest : Text) (v : SecretGrantRecord) (s : GrantStore)
    → is_spent v ≡ true
    → Spent digest s
    → Spent digest (put_record k v s)
put-Spent k digest v s spent (r, found, h) = elim (Bool-cases (text_eq.beq k digest)) [
  | inl same ↦ (v, rw (lookup-insert, same) refl, spent)
  | inr other ↦ (r, rw (lookup-insert, other) found, h)
]

revoked_spent :
    (r : SecretGrantRecord) (now : Time) → is_spent (record r { revoked_at = some now }) ≡ true
revoked_spent r now = elim (Bool-cases (is_some r.consumed_at)) [
  | inl e ↦ rw e refl
  | inr e ↦ rw e refl
]

issue-Spent :
    (attempts : Uuid → Result AttemptRecord) (r : SecretGrantRecord) (now : Time) (digest : Text)
    (s : GrantStore)
    → Spent digest s
    → Spent digest (issue attempts r now s).1
unfolding issue valid_attempt
issue-Spent attempts r now digest s h = elim (Result-cases (attempts r.binding.attempt_id)) [
  | inr (x, e) ↦ rw e h
  | inl (a, e) ↦ elim (Bool-cases (misfits r.binding now a)) [
    | inl m ↦ rw (e, m) h
    | inr m ↦ elim (Option-cases a.lease_expires_at) [
      | inl l ↦ rw (e, m, l) h
      | inr (t, l) ↦ elim (Bool-cases (leb (min r.expires_at t) now)) [
        | inl c ↦ rw (e, m, l, c) h
        | inr c ↦ elim (Option-cases (lookup r.token_digest s.records)) [
          | inr (q, f) ↦ rw (e, m, l, c, f) h
          | inl f ↦
              rw (e, m, l, c, f)
                (h.0, lookup-insert_free r.token_digest digest _ h.0 s.records f h.1, h.2)
        ]
      ]
    ]
  ]
]

-- What a successful `consume` found and wrote.
pub consumed :
    (attempts : Uuid → Result AttemptRecord) (digest : Text) (binding : SecretGrantBinding)
    (now : Time) (s : GrantStore)
    → ((consume attempts digest binding now s).1 ≡ s)
        × ((consume attempts digest binding now s).0 ≡ err capability_rejected)
      ⊎ ((r : SecretGrantRecord) × (a : AttemptRecord) × (attempts binding.attempt_id ≡ ok a)
          × (misfits binding now a ≡ false)
          × (lookup digest s.records ≡ some r)
          × (binding_beq r.binding binding ≡ true)
          × (leb r.expires_at now ≡ false)
          × (is_spent r ≡ false)
          × (consume attempts digest binding now s ≡ (
            ok (record r { consumed_at = some now }),
            put_record digest (record r { consumed_at = some now }) s,
          )))
unfolding consume valid_attempt
consumed attempts digest binding now s = elim (Result-cases (attempts binding.attempt_id)) [
  | inr (x, e) ↦ rw e (inl (refl, refl))
  | inl (a, e) ↦ elim (Bool-cases (misfits binding now a)) [
    | inl m ↦ rw (e, m) (inl (refl, refl))
    | inr m ↦ elim (Option-cases (lookup digest s.records)) [
      | inl f ↦ rw (e, m, f) (inl (refl, refl))
      | inr (r, f) ↦ elim (Bool-cases (binding_beq r.binding binding)) [
        | inr b ↦ rw (e, m, f, b) (inl (refl, refl))
        | inl b ↦ elim (Bool-cases (leb r.expires_at now)) [
          | inl t ↦ rw (e, m, f, b, t) (inl (refl, refl))
          | inr t ↦ elim (Bool-cases (is_spent r)) [
            | inl sp ↦ rw (e, m, f, b, t, sp) (inl (refl, refl))
            | inr sp ↦ inr (r, a, e, m, f, b, t, sp, rw (e, m, f, b, t, sp) refl)
          ]
        ]
      ]
    ]
  ]
]

consume-Spent :
    (attempts : Uuid → Result AttemptRecord) (k : Text) (binding : SecretGrantBinding) (now : Time)
    (digest : Text) (s : GrantStore)
    → Spent digest s
    → Spent digest (consume attempts k binding now s).1
consume-Spent attempts k binding now digest s h = elim (consumed attempts k binding now s) [
  | inl (same, refused) ↦ rw same h
  | inr (r, a, e, m, f, b, t, sp, done) ↦
      rw done (put-Spent k digest (record r { consumed_at = some now }) s refl h)
]

revoke-Spent :
    (k : Text) (now : Time) (digest : Text) (s : GrantStore)
    → Spent digest s
    → Spent digest (revoke k now s).1
unfolding revoke
revoke-Spent k now digest s h = elim (Option-cases (lookup k s.records)) [
  | inl e ↦ rw e h
  | inr (r, e) ↦ elim (Bool-cases (is_spent r)) [
    | inl sp ↦ rw (e, sp) h
    | inr sp ↦
        rw (e, sp)
          (put-Spent k digest (record r { revoked_at = some now }) s (revoked_spent r now) h)
  ]
]

revoke_each-Spent :
    (attempt_id : Uuid) (now : Time) (items : Dict Text SecretGrantRecord) (count : ℕ)
    (digest : Text) (s : GrantStore)
    → Spent digest s
    → Spent digest (revoke_each attempt_id now items count s).1
unfolding revoke_each
revoke_each-Spent attempt_id now [] count digest s h = h
revoke_each-Spent attempt_id now ((k, r) ∷ items) count digest s h =
    elim (Bool-cases (revocable attempt_id r)) [
      | inl e ↦ rw e (
          revoke_each-Spent attempt_id now items (suc count) digest
            (put_record k (record r { revoked_at = some now }) s)
            (put-Spent k digest (record r { revoked_at = some now }) s (revoked_spent r now) h))
      | inr e ↦ rw e (revoke_each-Spent attempt_id now items count digest s h)
    ]

-- A call on the store, with what the reader of attempts answers at that time.
pub data Call : Type 0 where
  issues : (Uuid → Result AttemptRecord) → SecretGrantRecord → Time → Call
  consumes : (Uuid → Result AttemptRecord) → Text → SecretGrantBinding → Time → Call
  revokes : Text → Time → Call
  revokes_attempt : Uuid → Time → Call

abbrev pub after : Call → GrantStore → GrantStore
after (Call.issues attempts r now) s = (issue attempts r now s).1
after (Call.consumes attempts k binding now) s = (consume attempts k binding now s).1
after (Call.revokes k now) s = (revoke k now s).1
after (Call.revokes_attempt attempt_id now) s = (revoke_attempt attempt_id now s).1

abbrev pub run_calls : List Call → GrantStore → GrantStore
run_calls [] s = s
run_calls (c ∷ cs) s = run_calls cs (after c s)

after-Spent :
    (c : Call) (digest : Text) (s : GrantStore) → Spent digest s → Spent digest (after c s)
unfolding revoke_attempt
after-Spent (Call.issues attempts r now) digest s h = issue-Spent attempts r now digest s h
after-Spent (Call.consumes attempts k binding now) digest s h =
    consume-Spent attempts k binding now digest s h
after-Spent (Call.revokes k now) digest s h = revoke-Spent k now digest s h
after-Spent (Call.revokes_attempt attempt_id now) digest s h =
    revoke_each-Spent attempt_id now s.records 0 digest s h

calls-Spent :
    (cs : List Call) (digest : Text) (s : GrantStore)
    → Spent digest s
    → Spent digest (run_calls cs s)
calls-Spent [] digest s h = h
calls-Spent (c ∷ cs) digest s h = calls-Spent cs digest (after c s) (after-Spent c digest s h)

some_same : {A : Type 0} {o : Option A} (a b : A) → o ≡ some a → o ≡ some b → a ≡ b
some_same a b h g = cc (h, g)

rejected_error :
    {A : Type 0} (r : Result A) (e : Error) → rejected r ≡ err e → e ≡ capability_rejected
rejected_error (ok a) e h = cc
rejected_error (err x) e h = cc

presented_rejects :
    (task : TaskEnvelope) (runner_id : Text) (e : Error)
    → presented task runner_id ≡ err e
    → e ≡ capability_rejected
unfolding presented
presented_rejects task runner_id e = rejected_error _ e

revoke_spends :
    (digest : Text) (now : Time) (s : GrantStore) (r : SecretGrantRecord)
    → lookup digest s.records ≡ some r
    → Spent digest (revoke digest now s).1
unfolding revoke
revoke_spends digest now s r found = elim (Bool-cases (is_spent r)) [
  | inl sp ↦ rw (found, sp) (r, found, sp)
  | inr sp ↦
      rw (found, sp)
        (
          record r { revoked_at = some now },
          lookup-insert_self digest _ s.records,
          revoked_spent r now,
        )
]

module _ (sha256 : Text → Text) (resolver : SecretResolver) where
  Spent-refused :
      (attempts : Uuid → Result AttemptRecord) (token : Text) (task : TaskEnvelope)
      (runner_id : Text) (now : Time) (s : GrantStore)
      → Spent (sha256 token) s
      → redeem sha256 resolver attempts token task runner_id now s ≡ (err capability_rejected, s)
  unfolding redeem
  Spent-refused attempts token task runner_id now s h =
      elim (Result-cases (presented task runner_id)) [
        | inr (x, e) ↦ rw e (rw (presented_rejects task runner_id x e) refl)
        | inl (binding, e) ↦ elim (consumed attempts (sha256 token) binding now s) [
          | inl (same, refused) ↦ rw e (rw (same, refused) refl)
          | inr (r, a, g, m, f, b, t, sp, done) ↦ clash (h.2) (rw (some_same h.0 r h.1 f) sp)
        ]
      ]

  redeem_spends :
      (attempts : Uuid → Result AttemptRecord) (token : Text) (task : TaskEnvelope)
      (runner_id : Text) (now : Time) (s : GrantStore) (secrets : List ResolvedSecretValue)
      → (redeem sha256 resolver attempts token task runner_id now s).0 ≡ ok secrets
      → Spent (sha256 token) (redeem sha256 resolver attempts token task runner_id now s).1
  unfolding redeem
  redeem_spends attempts token task runner_id now s secrets =
      elim (Result-cases (presented task runner_id)) [
        | inr (x, e) ↦ rw e (λ h. cc)
        | inl (binding, e) ↦ elim (consumed attempts (sha256 token) binding now s) [
          | inl (same, refused) ↦ rw e (rw refused (λ h. cc))
          | inr (r, a, g, m, f, b, t, sp, done) ↦ rw e (
              rw done (λ h. (
                record r { consumed_at = some now },
                lookup-insert_self (sha256 token) _ s.records,
                refl,
              )))
        ]
      ]

  -- A capability that was redeemed is never redeemed again: after any calls on the store, by any
  -- task and runner and at any time, `redeem` raises CapabilityRejected and gives no secret.
  pub redeem_once :
      (attempts attempts' : Uuid → Result AttemptRecord) (token : Text) (task task' : TaskEnvelope)
      (runner_id runner_id' : Text) (now now' : Time) (cs : List Call) (s : GrantStore)
      (secrets : List ResolvedSecretValue)
      → (redeem sha256 resolver attempts token task runner_id now s).0 ≡ ok secrets
      → (redeem sha256 resolver attempts' token task' runner_id' now'
          (run_calls cs (redeem sha256 resolver attempts token task runner_id now s).1)).0
        ≡ err capability_rejected
  redeem_once attempts attempts' token task task' runner_id runner_id' now now' cs s secrets h =
      ap (λ (p : Result (List ResolvedSecretValue) × GrantStore). p.0)
        (Spent-refused attempts' token task' runner_id' now' _ (
          calls-Spent cs (sha256 token) _
            (redeem_spends attempts token task runner_id now s secrets h)))

  -- A capability that was revoked after its issue is never redeemed: when a grant is stored under
  -- the digest, then after `revoke` and any calls on the store `redeem` raises CapabilityRejected.
  pub revoked_never_redeemed :
      (attempts : Uuid → Result AttemptRecord) (token : Text) (task : TaskEnvelope)
      (runner_id : Text) (now now' : Time) (cs : List Call) (s : GrantStore) (r : SecretGrantRecord)
      → lookup (sha256 token) s.records ≡ some r
      → (redeem sha256 resolver attempts token task runner_id now'
          (run_calls cs (revoke_capability sha256 resolver token now s).1)).0
        ≡ err capability_rejected
  unfolding revoke_capability
  revoked_never_redeemed attempts token task runner_id now now' cs s r found =
      ap (λ (p : Result (List ResolvedSecretValue) × GrantStore). p.0)
        (Spent-refused attempts token task runner_id now' _
          (calls-Spent cs (sha256 token) _ (revoke_spends (sha256 token) now s r found)))
