-- ===== src/Repository/Refinement/AttemptMethods.antt =====
-- The methods of services/api/repository.py on attempts are writes of Repository/Writes.
use smarttest_platform.Base.{refl, inl, inr, nat_eq, Option-cases, Result-cases, Option}
use smarttest_platform.Base.Dict.{lookup, lookup-insert_self}
use smarttest_platform.Base.Int.{ℤ}
use smarttest_platform.Base.Text.{Text}
use smarttest_platform.Protocol.{Uuid, Time, ResultEnvelope}
use smarttest_platform.Domain.{RunState, AttemptState}
use smarttest_platform.Domain.Records.{
  run_with_state, attempt_with_state, with_result, claimed, with_heartbeat, new_attempt,
}
use smarttest_platform.Domain.Lifecycle.{
  run_with_state-RunStep, attempt_with_state-step, with_result-step, claimed-step,
  with_heartbeat-step, AttemptStep-same,
}
use smarttest_platform.Repository.State.{Clock, RunRepository, put_run}
use smarttest_platform.Repository.Attempts.{
  create_attempt, begin_attempt, transition_attempt, claim_attempt, renew_attempt_lease,
  complete_attempt, or_default,
}
use smarttest_platform.Repository.Writes.{Write, Writes, one-Write}

pub create_attempt-Writes :
    (s : RunRepository) (run_id : Uuid) (attempt_id : Option Uuid) (uuid : Uuid) (c : Clock)
    → Writes s (create_attempt run_id attempt_id uuid c s).1
unfolding create_attempt
create_attempt-Writes s run_id attempt_id uuid c =
    let k = or_default attempt_id uuid in
    elim (Option-cases (lookup run_id s.runs)) [
      | inl e ↦ rw e Writes.here
      | inr (r, e) ↦ rw e (elim (Option-cases (lookup k s.attempts)) [
        | inl free ↦ rw free (
            one-Write (
              Write.add_attempt s k (new_attempt k run_id AttemptState.pending (c 0)) refl free
                (rw e)))
        | inr (a, taken) ↦ rw taken Writes.here
      ])
    ]

pub transition_attempt-Writes :
    (s : RunRepository) (k : Uuid) (t : AttemptState) (c : Clock)
    → Writes s (transition_attempt k t c s).1
unfolding transition_attempt
transition_attempt-Writes s k t c = elim (Option-cases (lookup k s.attempts)) [
  | inl e ↦ rw e Writes.here
  | inr (a, e) ↦ rw e (elim (Result-cases (attempt_with_state a t (c 0))) [
    | inl (a', f) ↦
        rw f (one-Write (Write.move_attempt s k a a' e (attempt_with_state-step a t (c 0) f).0))
    | inr (x, f) ↦ rw f Writes.here
  ])
]

pub claim_attempt-Writes :
    (s : RunRepository) (k : Uuid) (runner : Text) (n : ℤ) (now : Option Time) (c : Clock)
    → Writes s (claim_attempt k runner n now c s).1
unfolding claim_attempt
claim_attempt-Writes s k runner n now c =
    let t = or_default now (c 0) in
    elim (Option-cases (lookup k s.attempts)) [
      | inl e ↦ rw e Writes.here
      | inr (a, e) ↦ rw e (elim (Result-cases (claimed a runner n t (c 1))) [
        | inl (a', f) ↦
            rw f (one-Write (Write.move_attempt s k a a' e (claimed-step a runner n t (c 1) f).0))
        | inr (x, f) ↦ rw f Writes.here
      ])
    ]

pub renew_attempt_lease-Writes :
    (s : RunRepository) (k : Uuid) (runner : Text) (n : ℤ) (now : Option Time) (c : Clock)
    → Writes s (renew_attempt_lease k runner n now c s).1
unfolding renew_attempt_lease
renew_attempt_lease-Writes s k runner n now c =
    let t = or_default now (c 0) in
    elim (Option-cases (lookup k s.attempts)) [
      | inl e ↦ rw e Writes.here
      | inr (a, e) ↦ rw e (elim (Result-cases (with_heartbeat a runner n t)) [
        | inl (a', f) ↦
            rw f (one-Write (Write.move_attempt s k a a' e (with_heartbeat-step a runner n t f)))
        | inr (x, f) ↦ rw f Writes.here
      ])
    ]

pub complete_attempt-Writes :
    (s : RunRepository) (k : Uuid) (t : AttemptState) (result : ResultEnvelope) (c : Clock)
    → Writes s (complete_attempt k t result c s).1
unfolding complete_attempt
complete_attempt-Writes s k t result c = elim (Option-cases (lookup k s.attempts)) [
  | inl e ↦ rw e Writes.here
  | inr (a, e) ↦ rw e (elim (Result-cases (with_result a t result (c 0))) [
    | inl (a', f) ↦
        rw f (one-Write (Write.move_attempt s k a a' e (with_result-step a t result (c 0) f).0))
    | inr (x, f) ↦ rw f Writes.here
  ])
]

pub begin_attempt-Writes :
    (s : RunRepository) (run_id attempt_id : Uuid) (runner : Text) (n : ℤ) (c : Clock)
    → Writes s (begin_attempt run_id attempt_id runner n c s).1
unfolding begin_attempt
begin_attempt-Writes s run_id attempt_id runner n c =
    let pending = new_attempt attempt_id run_id AttemptState.pending (c 1) in
    elim (Option-cases (lookup run_id s.runs)) [
      | inl e ↦ rw e Writes.here
      | inr (r, e) ↦ rw e (elim (Option-cases (lookup attempt_id s.attempts)) [
        | inr (a, taken) ↦ rw taken Writes.here
        | inl free ↦ rw free (elim (Result-cases (run_with_state r RunState.running (c 0))) [
          | inr (x, f) ↦ rw f Writes.here
          | inl (r', f) ↦ rw f (elim (Result-cases (claimed pending runner n (c 1) (c 2))) [
            | inr (x, g) ↦ rw g Writes.here
            | inl (a', g) ↦ rw g (
                let same = AttemptStep-same (claimed-step pending runner n (c 1) (c 2) g).0 in
                Writes.next
                  (one-Write (
                    Write.move_run s run_id r r' e
                      (run_with_state-RunStep r RunState.running (c 0) f).0))
                  (Write.add_attempt (put_run run_id r' s) attempt_id a' same.id free
                    (rw (same.run_id, lookup-insert_self))))
          ])
        ])
      ])
    ]
