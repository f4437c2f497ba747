-- ===== src/Repository/Begin.antt =====
-- How services/api/repository.py hands a run to one attempt.
use smarttest_platform.Base.{
  ℕ, ◌+◌, ◌≡◌, inl, inr, nat_eq, Option-cases, Result-cases, some, ok, err, arith, Error,
  invalid_transition, attempt_conflict, ap,
}
use smarttest_platform.Base.Dict.{lookup, lookup-insert_self}
use smarttest_platform.Base.Int.{ℤ}
use smarttest_platform.Base.Text.{Text, strip}
use smarttest_platform.Protocol.{Uuid}
use smarttest_platform.Domain.{RunState, AttemptState, RunRecord, AttemptRecord}
use smarttest_platform.Domain.Records.{run_with_state, claimed, new_attempt, seconds}
use smarttest_platform.Domain.State.{transition_run}
use smarttest_platform.Domain.Lifecycle.{run_with_state-RunStep, claimed-step}
use smarttest_platform.Repository.State.{Clock, RunRepository}
use smarttest_platform.Repository.Attempts.{begin_attempt}

-- A run that is running is not begun.
begin_running_fails :
    (t : RunRepository) (k j : Uuid) (runner : Text) (n : ℤ) (c : Clock) (r : RunRecord)
    → lookup k t.runs ≡ some r
    → r.state ≡ RunState.running
    → (e : Error) × (begin_attempt k j runner n c t ≡ (err e, t))
unfolding begin_attempt run_with_state transition_run
begin_running_fails t k j runner n c r found running = elim (Option-cases (lookup j t.attempts)) [
  | inl free ↦ (invalid_transition, rw (found) (rw free (rw running)))
  | inr (a, taken) ↦ (attempt_conflict, rw found (rw taken))
]

-- What a call that returned has stored.
abbrev pub Begun :
    RunRepository → Uuid → Uuid → Text → ℤ → Clock → RunRecord → AttemptRecord → Type 0
Begun t k j runner n c r a =
    (lookup k t.runs ≡ some r)
    × (lookup j t.attempts ≡ some a)
    × (r.state ≡ RunState.running)
    × (a.state ≡ AttemptState.claimed)
    × (a.runner_id ≡ some (strip runner))
    × (a.lease_expires_at ≡ some (c 1 + seconds n))

claimed_lease :
    (a a' : AttemptRecord) (runner : Text) (n : ℤ) (now read : ℕ)
    → claimed a runner n now read ≡ ok a'
    → (a'.runner_id ≡ some (strip runner)) × (a'.lease_expires_at ≡ some (now + seconds n))
unfolding claimed
claimed_lease a a' runner n now read h = ground arith

begin_attempt-Begun :
    (s : RunRepository) (k j : Uuid) (runner : Text) (n : ℤ) (c : Clock) (r : RunRecord)
    (a : AttemptRecord)
    → (begin_attempt k j runner n c s).0 ≡ ok (r, a)
    → Begun (begin_attempt k j runner n c s).1 k j runner n c r a
unfolding begin_attempt
begin_attempt-Begun s k j runner n c r a =
    let pending = new_attempt j k AttemptState.pending (c 1) in
    elim (Option-cases (lookup k s.runs)) [
      | inl e ↦ rw e (λ h. cc)
      | inr (r0, e) ↦ rw e (elim (Option-cases (lookup j s.attempts)) [
        | inr (a0, taken) ↦ rw taken (λ h. cc)
        | inl free ↦ rw free (elim (Result-cases (run_with_state r0 RunState.running (c 0))) [
          | inr (x, f) ↦ rw f (λ h. cc)
          | inl (r', f) ↦ rw f (elim (Result-cases (claimed pending runner n (c 1) (c 2))) [
            | inr (x, g) ↦ rw g (λ h. cc)
            | inl (a', g) ↦ rw g (λ h.
                let q : ◌≡◌ {A = RunRecord × AttemptRecord} (r', a') (r, a) = cc in
                let qr : r' ≡ r = ap (λ (p : RunRecord × AttemptRecord). p.0) q in
                let qa : a' ≡ a = ap (λ (p : RunRecord × AttemptRecord). p.1) q in
                rw (← qr, ← qa)
                  (
                    lookup-insert_self k r' s.runs,
                    lookup-insert_self j a' s.attempts,
                    (run_with_state-RunStep r0 RunState.running (c 0) f).1,
                    (claimed-step pending runner n (c 1) (c 2) g).1,
                    (claimed_lease pending a' runner n (c 1) (c 2) g).0,
                    (claimed_lease pending a' runner n (c 1) (c 2) g).1,
                  ))
          ])
        ])
      ])
    ]

-- A call of `begin_attempt` that returns has stored the run as running and the attempt as claimed
-- by the stripped runner name, with a lease of the given seconds; and from then on, while the
-- store is as it left it, every further call for that run raises and changes nothing.
pub begin_attempt_exclusive :
    (s : RunRepository) (k j : Uuid) (runner : Text) (n : ℤ) (c : Clock) (r : RunRecord)
    (a : AttemptRecord)
    → (begin_attempt k j runner n c s).0 ≡ ok (r, a)
    → let t = (begin_attempt k j runner n c s).1 in
      Begun t k j runner n c r a
      × ((j' : Uuid) (runner' : Text) (n' : ℤ) (c' : Clock)
          → (e : Error) × (begin_attempt k j' runner' n' c' t ≡ (err e, t)))
begin_attempt_exclusive s k j runner n c r a h =
    let t = (begin_attempt k j runner n c s).1 in
    let b = begin_attempt-Begun s k j runner n c r a h in
    (b, λ j' runner' n' c'. begin_running_fails t k j' runner' n' c' r b.0 b.2)
