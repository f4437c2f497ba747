-- ===== src/Repository/Refinement/Sweep.antt =====
-- The sweep of services/api/repository.py over the leases that are over, against Repository/Writes.
use smarttest_platform.Base.{
  ℕ, ◌≡◌, ◌+◌, inl, inr, nat_eq, Option-cases, Result-cases, Bool-cases, Option, none, some, [],
  ◌∷◌, state_bind_pure, ◌++◌,
}
use smarttest_platform.Base.Dict.{Dict, lookup, Distinct, Agrees, Agrees-insert, Agrees-self}
use smarttest_platform.Protocol.{Uuid, Time}
use smarttest_platform.Domain.{RunState, RunRecord, AttemptRecord}
use smarttest_platform.Domain.State.{run_terminal}
use smarttest_platform.Domain.Records.{run_with_state, lost}
use smarttest_platform.Domain.Lifecycle.{run_with_state-RunStep, lost-step}
use smarttest_platform.Repository.State.{Clock, RunRepository, put_attempt}
use smarttest_platform.Repository.Attempts.{or_default}
use smarttest_platform.Repository.Leases.{
  expire_one, sweep, expire_attempt_leases, has_expired, fail_run,
}
use smarttest_platform.Repository.WellFormed.{WellFormed, Writes-WellFormed}
use smarttest_platform.Repository.Writes.{Write, Writes, one-Write, Writes-trans}
use mathlib.Core.Path.{subst, sym}

fail_run-Writes :
    (s : RunRepository) (k : Uuid) (run : RunRecord) (t : Time)
    → lookup k s.runs ≡ some run
    → run.id ≡ k
    → Writes s (fail_run run t s).1
fail_run-Writes s k run t found id = elim (Bool-cases (run_terminal run.state)) [
  | inl over ↦ rw over Writes.here
  | inr live ↦ rw live (elim (Result-cases (run_with_state run RunState.infra_error t)) [
    | inl (r', f) ↦ rw f (
        one-Write (
          Write.move_run s run.id run r' (subst (λ j. lookup j s.runs ≡ some run) (sym id) found)
            (run_with_state-RunStep run RunState.infra_error t f).0))
    | inr (x, f) ↦ rw f Writes.here
  ])
]

pub attempts-fail_run :
    (s : RunRepository) (run : RunRecord) (t : Time) → (fail_run run t s).1.attempts ≡ s.attempts
attempts-fail_run s run t = elim (Bool-cases (run_terminal run.state)) [
  | inl over ↦ rw over
  | inr live ↦ rw live (elim (Result-cases (run_with_state run RunState.infra_error t)) [
    | inl (r', f) ↦ rw f
    | inr (x, f) ↦ rw f
  ])
]

module _ (clock : Clock) (cutoff : Time) where
  expire_one-Writes :
      (i : ℕ) (s : RunRepository) (k : Uuid) (a : AttemptRecord)
      → WellFormed s
      → lookup k s.attempts ≡ some a
      → Writes s (expire_one clock cutoff i k a s).1
  unfolding expire_one
  expire_one-Writes i s k a w found = elim (Bool-cases (has_expired a cutoff)) [
    | inr going ↦ rw going Writes.here
    | inl due ↦ rw due (elim (Result-cases (lost a cutoff (clock i))) [
      | inr (x, f) ↦ rw f Writes.here
      | inl (a', f) ↦
          let first =
            one-Write (Write.move_attempt s k a a' found (lost-step a cutoff (clock i) f).0) in
          rw f (elim (Option-cases (lookup a.run_id s.runs)) [
            | inl missing ↦ rw missing first
            | inr (run, there) ↦ rw there (
                rw
                  (state_bind_pure (fail_run run (clock (i + 1))) (λ _. a' ∷ [])
                    (put_attempt k a' s))
                  (Writes-trans first (
                    fail_run-Writes (put_attempt k a' s) a.run_id run (clock (i + 1)) there
                      (w.run_ids a.run_id run there))))
          ])
    ])
  ]

  -- A round leaves the attempts under the other keys.
  pub expire_one-Agrees :
      (i : ℕ) (s : RunRepository) (k : Uuid) (a : AttemptRecord) (items : Dict Uuid AttemptRecord)
      → lookup k items ≡ none
      → Agrees s.attempts items
      → Agrees (expire_one clock cutoff i k a s).1.attempts items
  unfolding expire_one
  expire_one-Agrees i s k a items free h = elim (Bool-cases (has_expired a cutoff)) [
    | inr going ↦ rw going h
    | inl due ↦ rw due (elim (Result-cases (lost a cutoff (clock i))) [
      | inr (x, f) ↦ rw f h
      | inl (a', f) ↦
          let after = Agrees-insert k a' s.attempts items free h in
          rw f (elim (Option-cases (lookup a.run_id s.runs)) [
            | inl missing ↦ rw missing after
            | inr (run, there) ↦ rw there (
                rw
                  (state_bind_pure (fail_run run (clock (i + 1))) (λ _. a' ∷ [])
                    (put_attempt k a' s))
                  (rw (attempts-fail_run (put_attempt k a' s) run (clock (i + 1))) after))
          ])
    ])
  ]

  sweep-Writes :
      (i : ℕ) (items : Dict Uuid AttemptRecord) (s : RunRepository)
      → WellFormed s
      → Distinct items
      → Agrees s.attempts items
      → Writes s (sweep clock cutoff i items s).1
  unfolding sweep
  sweep-Writes i [] s w d h = Writes.here
  sweep-Writes i ((k, a) ∷ items) s w d h =
      let t = (expire_one clock cutoff i k a s).1 in
      let first = expire_one-Writes i s k a w h.0 in
      let rest =
        sweep-Writes (i + 2) items t (Writes-WellFormed first w) d.1
          (expire_one-Agrees i s k a items d.0 h.1) in
      elim (Result-cases (expire_one clock cutoff i k a s).0) [
        | inr (x, e) ↦ rw e first
        | inl (found, e) ↦ rw e (
            rw (state_bind_pure (sweep clock cutoff (i + 2) items) (λ others. found ++ others) t)
              (Writes-trans first rest))
      ]

pub expire_attempt_leases-Writes :
    (s : RunRepository) (now : Option Time) (c : Clock)
    → WellFormed s
    → Writes s (expire_attempt_leases now c s).1
unfolding expire_attempt_leases
expire_attempt_leases-Writes s now c w =
    sweep-Writes c (or_default now (c 0)) 1 s.attempts s w w.attempts_distinct
      (Agrees-self s.attempts w.attempts_distinct)
