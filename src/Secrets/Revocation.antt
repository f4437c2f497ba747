-- ===== src/Secrets/Revocation.antt =====
-- The revocation of all capabilities of an attempt in services/secret_broker.py.
use smarttest_platform.Base.{
  ◌∙◌, ℕ, suc, ◌∷◌, [], none, some, true, false, ◌≡◌, refl, Bool-cases, arith, ◌⊎◌, inl, inr,
  is_some,
}
use smarttest_platform.Base.Dict.{
  Dict, lookup, insert, lookup-insert, lookup-insert_self, Agrees, Agrees-insert, Agrees-self,
  Distinct, found_unique,
}
use smarttest_platform.Base.Text.{text_eq, Text}
use smarttest_platform.Protocol.{Uuid, Time}
use smarttest_platform.Secrets.Grants.{
  revoke_each, revoke_attempt, SecretGrantRecord, revocable, GrantStore, put_record, is_spent,
}
use mathlib.Core.Path.{subst, sym}

revoked_done :
    (attempt_id : Uuid) (r : SecretGrantRecord) (now : Time)
    → revocable attempt_id (record r { revoked_at = some now }) ≡ false
revoked_done attempt_id r now = elim (Bool-cases (is_some r.consumed_at)) [
  | inl e ↦ rw e (ground arith)
  | inr e ↦ rw e (ground arith)
]

key_absent :
    (k d : Text) (q : SecretGrantRecord) (items : Dict Text SecretGrantRecord)
    → text_eq.beq k d ≡ false
    → lookup d items ≡ none
    → lookup d ((k, q) ∷ items) ≡ none
unfolding lookup
key_absent k d q items other h = rw other h

nothing : (d : Text) → lookup {V = SecretGrantRecord} d [] ≡ none
unfolding lookup
nothing d = refl

each_settles :
    (attempt_id : Uuid) (now : Time) (items : Dict Text SecretGrantRecord) (count : ℕ)
    (s : GrantStore) (d : Text) (r : SecretGrantRecord)
    → Agrees s.records items
    → Distinct items
    → lookup d (revoke_each attempt_id now items count s).1.records ≡ some r
    → (revocable attempt_id r ≡ false) ⊎ ((lookup d items ≡ none) × (lookup d s.records ≡ some r))
unfolding revoke_each
each_settles attempt_id now [] count s d r agrees distinct = λ found. inr (nothing d, found)
each_settles attempt_id now ((k, q) ∷ items) count s d r agrees distinct =
    elim (Bool-cases (revocable attempt_id q)) [
      | inl e ↦ rw e (λ found.
          elim (each_settles attempt_id now items (suc count)
            (put_record k (record q { revoked_at = some now }) s) d r
            (Agrees-insert k (record q { revoked_at = some now }) s.records items distinct.0
              agrees.1)
            distinct.1 found) [
              | inl done ↦ inl done
              | inr (absent, kept) ↦ elim (Bool-cases (text_eq.beq k d)) [
                | inl same ↦ inl (
                    subst (λ x. revocable attempt_id x ≡ false)
                      (found_unique k d (record q { revoked_at = some now }) r _ same
                        (lookup-insert_self k (record q { revoked_at = some now }) s.records) kept)
                      (revoked_done attempt_id q now))
                | inr other ↦
                    inr (key_absent k d q items other absent, sym (before k d q other) ∙ kept)
              ]
            ])
      | inr e ↦ rw e (λ found.
          elim (each_settles attempt_id now items count s d r agrees.1 distinct.1 found) [
            | inl done ↦ inl done
            | inr (absent, kept) ↦ elim (Bool-cases (text_eq.beq k d)) [
              | inl same ↦ inl (
                  subst (λ x. revocable attempt_id x ≡ false)
                    (found_unique k d q r s.records same agrees.0 kept) e)
              | inr other ↦ inr (key_absent k d q items other absent, kept)
            ]
          ])
    ]
  where
    before :
        (k d : Text) (q : SecretGrantRecord)
        → text_eq.beq k d ≡ false
        → lookup d (insert k (record q { revoked_at = some now }) s.records) ≡ lookup d s.records
    before k d q other = rw (lookup-insert, other) refl

not_revocable :
    (r : SecretGrantRecord) (attempt_id : Uuid)
    → r.binding.attempt_id ≡ attempt_id
    → revocable attempt_id r ≡ false
    → is_spent r ≡ true
not_revocable r attempt_id owned done = elim (Bool-cases (is_spent r)) [
  | inl e ↦ e
  | inr e ↦ absurd (ground (arith, owned, done, e))
]

-- When no digest stands twice in the store, `revoke_attempt` leaves no grant of the attempt that
-- could still be consumed: every grant of it that is found afterwards was consumed or revoked.
pub revoke_attempt_complete :
    (attempt_id : Uuid) (now : Time) (s : GrantStore) (digest : Text) (r : SecretGrantRecord)
    → Distinct s.records
    → lookup digest (revoke_attempt attempt_id now s).1.records ≡ some r
    → r.binding.attempt_id ≡ attempt_id
    → is_spent r ≡ true
unfolding revoke_attempt
revoke_attempt_complete attempt_id now s digest r distinct found owned =
    elim (each_settles attempt_id now s.records 0 s digest r (Agrees-self s.records distinct)
      distinct found) [
        | inl done ↦ not_revocable r attempt_id owned done
        | inr (absent, present) ↦ absurd (cc)
      ]
