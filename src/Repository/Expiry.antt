-- ===== src/Repository/Expiry.antt =====
-- What the sweep of services/api/repository.py leaves behind when it returns.
use smarttest_platform.Base.{
  ℕ, ◌+◌, ◌≡◌, refl, ◌∙◌, ◌⊎◌, inl, inr, nat_eq, Option-cases, Result-cases, Bool-cases, Option,
  none, some, List, [], ◌∷◌, ok, err, arith, false, ◌==◌, ==_iff, Error, ap, key_error,
  state_bind_pure, ◌++◌,
}
use smarttest_platform.Base.Dict.{
  Dict, lookup, insert, lookup-insert, Distinct, Agrees, Agrees-self, lookup-insert_self,
}
use smarttest_platform.Protocol.{Uuid, Time}
use smarttest_platform.Domain.{AttemptState, AttemptRecord}
use smarttest_platform.Domain.Records.{lost}
use smarttest_platform.Domain.Lifecycle.{lost-step}
use smarttest_platform.Repository.State.{Clock, RunRepository, put_attempt}
use smarttest_platform.Repository.Attempts.{or_default}
use smarttest_platform.Repository.Leases.{
  expire_one, sweep, expire_attempt_leases, has_expired, fail_run,
}
use smarttest_platform.Repository.WellFormed.{WellFormed}
use smarttest_platform.Repository.Refinement.Sweep.{attempts-fail_run, expire_one-Agrees}
use mathlib.Core.Path.{subst, sym}

lost_not_expired :
    (a : AttemptRecord) (cutoff : Time) → a.state ≡ AttemptState.lost → has_expired a cutoff ≡ false
lost_not_expired a cutoff h = ground arith

-- The attempts after a round that did not raise.
abbrev RoundDone :
    Time → Uuid → AttemptRecord → Dict Uuid AttemptRecord → Dict Uuid AttemptRecord → Type 0
RoundDone cutoff k a before after =
    ((has_expired a cutoff ≡ false) × (after ≡ before))
    ⊎ ((a' : AttemptRecord) × (after ≡ insert k a' before) × (a'.state ≡ AttemptState.lost))

module _ (clock : Clock) (cutoff : Time) where
  expire_one-RoundDone :
      (i : ℕ) (s : RunRepository) (k : Uuid) (a : AttemptRecord)
      → RoundDone cutoff k a s.attempts (expire_one clock cutoff i k a s).1.attempts
        ⊎ ((e : Error) × ((expire_one clock cutoff i k a s).0 ≡ err e))
  unfolding expire_one
  expire_one-RoundDone i s k a = elim (Bool-cases (has_expired a cutoff)) [
    | inr going ↦ rw going (inl (inl (refl, refl)))
    | inl due ↦ rw due (elim (Result-cases (lost a cutoff (clock i))) [
      | inr (x, f) ↦ rw f (inr (x, refl))
      | inl (a', f) ↦ rw f (elim (Option-cases (lookup a.run_id s.runs)) [
        | inl missing ↦ rw missing (inr (key_error, refl))
        | inr (run, there) ↦ rw there (
            rw (state_bind_pure (fail_run run (clock (i + 1))) (λ _. a' ∷ []) (put_attempt k a' s))
              (rw (attempts-fail_run (put_attempt k a' s) run (clock (i + 1)))
                (inl (inr (a', refl, (lost-step a cutoff (clock i) f).1)))))
      ])
    ])
  ]

  -- What the round's own key holds is not due any more.
  own_settled :
      (k : Uuid) (a b : AttemptRecord) (before after : Dict Uuid AttemptRecord)
      → RoundDone cutoff k a before after
      → lookup k before ≡ some a
      → lookup k after ≡ some b
      → has_expired b cutoff ≡ false
  own_settled k a b before after (inl (fine, same)) had has =
      let e : a ≡ b = cc (had, has, ap (λ (d : Dict Uuid AttemptRecord). lookup k d) same) in
      subst (λ x. has_expired x cutoff ≡ false) e fine
  own_settled k a b before after (inr (a', new, is_lost)) had has =
      let e : a' ≡ b = cc (
        has,
        ap (λ (d : Dict Uuid AttemptRecord). lookup k d) new,
        lookup-insert_self k a' before,
      ) in
      lost_not_expired b cutoff (ap (λ (x : AttemptRecord). x.state) (sym e) ∙ is_lost)

  other_kept :
      (k j : Uuid) (a b : AttemptRecord) (before after : Dict Uuid AttemptRecord)
      → RoundDone cutoff k a before after
      → (k == j) ≡ false
      → lookup j after ≡ some b
      → lookup j before ≡ some b
  other_kept k j a b before after (inl (fine, same)) ne has = rw (← same) has
  other_kept k j a b before after (inr (a', new, is_lost)) ne has =
      ground
        (arith, lookup-insert k j a' before, ap (λ (d : Dict Uuid AttemptRecord). lookup j d) new)

  round_done :
      (i : ℕ) (s : RunRepository) (k : Uuid) (a : AttemptRecord) {l : List AttemptRecord}
      → (expire_one clock cutoff i k a s).0 ≡ ok l
      → RoundDone cutoff k a s.attempts (expire_one clock cutoff i k a s).1.attempts
  round_done i s k a h = elim (expire_one-RoundDone i s k a) [
    | inl r ↦ r
    | inr (e, raised) ↦ absurd (cc)
  ]

  settle :
      (k j : Uuid) (a b : AttemptRecord) (items before after : Dict Uuid AttemptRecord)
      → RoundDone cutoff k a before after
      → lookup k before ≡ some a
      → (has_expired b cutoff ≡ false) ⊎ ((lookup j items ≡ none) × (lookup j after ≡ some b))
      → (has_expired b cutoff ≡ false)
        ⊎ ((lookup j ((k, a) ∷ items) ≡ none) × (lookup j before ≡ some b))
  unfolding lookup
  settle k j a b items before after r had (inl fine) = inl fine
  settle k j a b items before after r had (inr (absent, has)) = elim (Bool-cases (k == j)) [
    | inl same ↦ inl (own_settled k a b before after r had (rw ((==_iff k j).0 same) has))
    | inr ne ↦ inr (rw ne absent, other_kept k j a b before after r ne has)
  ]

  sweep_settles :
      (i : ℕ) (items : Dict Uuid AttemptRecord) (s : RunRepository) (l : List AttemptRecord)
      → Distinct items
      → Agrees s.attempts items
      → (sweep clock cutoff i items s).0 ≡ ok l
      → (j : Uuid) (b : AttemptRecord) → lookup j (sweep clock cutoff i items s).1.attempts ≡ some b
      → (has_expired b cutoff ≡ false) ⊎ ((lookup j items ≡ none) × (lookup j s.attempts ≡ some b))
  unfolding sweep lookup
  sweep_settles i [] s l d h = λ done j b has. inr (refl, has)
  sweep_settles i ((k, a) ∷ items) s l d h =
      let t = (expire_one clock cutoff i k a s).1 in
      let agrees = expire_one-Agrees clock cutoff i s k a items d.0 h.1 in
      elim (Result-cases (expire_one clock cutoff i k a s).0) [
        | inr (x, e) ↦ rw e (λ done. cc)
        | inl (found, e) ↦ rw e (
            rw (state_bind_pure (sweep clock cutoff (i + 2) items) (λ others. found ++ others) t)
              (elim (Result-cases (sweep clock cutoff (i + 2) items t).0) [
                | inr (x, f) ↦ rw f (λ done. cc)
                | inl (others, f) ↦ λ done j b has.
                    settle k j a b items s.attempts t.attempts (round_done i s k a e) h.0
                      (sweep_settles (i + 2) items t others d.1 agrees f j b has)
              ]))
      ]

-- A sweep that returns leaves no leased attempt whose lease had ended at the cutoff.
pub expire_attempt_leases_complete :
    (s : RunRepository) (now : Option Time) (c : Clock) (l : List AttemptRecord)
    → WellFormed s
    → (expire_attempt_leases now c s).0 ≡ ok l
    → (k : Uuid) (a : AttemptRecord) → lookup k (expire_attempt_leases now c s).1.attempts ≡ some a
    → has_expired a (or_default now (c 0)) ≡ false
unfolding expire_attempt_leases
expire_attempt_leases_complete s now c l w done k a has =
    elim (sweep_settles c (or_default now (c 0)) 1 s.attempts s l w.attempts_distinct
      (Agrees-self s.attempts w.attempts_distinct) done k a has) [
        | inl fine ↦ fine
        | inr (absent, present) ↦ absurd (cc)
      ]
