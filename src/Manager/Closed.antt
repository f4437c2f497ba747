-- ===== src/Manager/Closed.antt =====
-- The attempt that services/runner_manager.py leaves when it returns a result.
use smarttest_platform.Base.{
  ◌>>=◌, refl, ◌≡◌, if◌then◌else◌, ◌||◌, not, ◌∙◌, nat_eq, ◌==◌, true, some, ok, Option-cases,
  Error, Bool, inl, false, ◌⊎◌, inr, Bool-cases, not, pure, raise,
}
use smarttest_platform.Protocol.{ResultOutcome, ResultEnvelope, TaskEnvelope, Uuid}
use smarttest_platform.Domain.State.{AttemptState, attempt_is, attempt_terminal, attempt_allows}
use smarttest_platform.Domain.State
use smarttest_platform.Domain.Records.{AttemptRecord, with_result}
use smarttest_platform.Repository.State.{RunRepository, Clock, get_attempt_locked}
use smarttest_platform.Repository.Attempts.{complete_attempt, get_attempt, transition_attempt}
use smarttest_platform.Manager.{
  attempt_result, RunnerManager, close_attempt, Text, Method, is_invalid_transition,
}
use smarttest_platform.Manager.Returns.{ok_same, bind_returns, rescue_returns, if_returns}
use mathlib.Core.Path.{subst, ap, sym}
use smarttest_platform.Base.Dict.{lookup, insert, lookup-insert_self}

-- The state in which a result leaves its attempt.
pub data Closes : ResultOutcome → AttemptState → Type 0 where
  succeeded : Closes ResultOutcome.succeeded AttemptState.succeeded
  failed : Closes ResultOutcome.failed AttemptState.failed
  cancelled : Closes ResultOutcome.cancelled AttemptState.cancelled
  timed_out : Closes ResultOutcome.timed_out AttemptState.timed_out
  infra_error : Closes ResultOutcome.infra_error AttemptState.infra_error

attempt_result-Closes : (o : ResultOutcome) → Closes o (attempt_result o)
attempt_result-Closes ResultOutcome.succeeded = Closes.succeeded
attempt_result-Closes ResultOutcome.failed = Closes.failed
attempt_result-Closes ResultOutcome.cancelled = Closes.cancelled
attempt_result-Closes ResultOutcome.timed_out = Closes.timed_out
attempt_result-Closes ResultOutcome.infra_error = Closes.infra_error

pub Closes-terminal :
    (o : ResultOutcome) (st : AttemptState) → Closes o st → attempt_terminal st ≡ true
Closes-terminal o st Closes.succeeded = refl
Closes-terminal o st Closes.failed = refl
Closes-terminal o st Closes.cancelled = refl
Closes-terminal o st Closes.timed_out = refl
Closes-terminal o st Closes.infra_error = refl

pub state_lost :
    (st : AttemptState) → attempt_is st AttemptState.lost ≡ true → st ≡ AttemptState.lost
state_lost AttemptState.lost h = refl
state_lost _ h = cc

-- The record of an attempt that a result has ended.
abbrev pub Records : ResultEnvelope → AttemptRecord → Type 0
Records result a =
    Closes result.outcome a.state
    × (a.outcome ≡ some result.outcome)
    × (a.duration_ms ≡ some result.duration_ms)
    × (a.summary ≡ some result.summary)
    × (a.completed_at ≡ some result.completed_at)

-- The result is one of the task.
abbrev pub IsOf : TaskEnvelope → ResultEnvelope → Type 0
IsOf task result =
    (result.run_id ≡ task.run_id)
    × (result.attempt_id ≡ task.attempt_id)
    × (result.engine ≡ task.engine)

-- `complete_attempt` stores the result under the attempt.
complete_attempt-Records :
    (id : Uuid) (result : ResultEnvelope) (clock : Clock) (s : RunRepository) (a : AttemptRecord)
    → (complete_attempt id (attempt_result result.outcome) result clock s).0 ≡ ok a
    → (lookup id (complete_attempt id (attempt_result result.outcome) result clock s).1.attempts
        ≡ some a)
      × Records result a
unfolding complete_attempt get_attempt_locked with_result State.transition_attempt
complete_attempt-Records id result clock s a = elim (Option-cases (lookup id s.attempts)) [
  | inl e ↦ rw e (λ h. cc)
  | inr (b, e) ↦
      elim (Bool-cases (not (result.attempt_id == b.id) || not (result.run_id == b.run_id))) [
        | inl f ↦ rw (e, f) (λ h. cc)
        | inr f ↦ elim (Bool-cases (attempt_allows b.state (attempt_result result.outcome))) [
          | inr g ↦ rw (e, f, g) (λ h. cc)
          | inl g ↦
              rw (e, f, g)
                (λ h. kept _ h (attempt_result-Closes result.outcome, refl, refl, refl, refl))
        ]
      ]
]
  where
    kept :
        (made : AttemptRecord)
        → ok made ≡ ok a
        → Records result made
        → (lookup id (insert id made s.attempts) ≡ some a) × Records result a
    kept made h ended = (
      lookup-insert_self id made s.attempts ∙ ap some (ok_same made a h),
      subst (Records result) (ok_same made a h) ended,
    )

-- An attempt is stored that is lost.
abbrev pub LostAt : Uuid → RunRepository → Type 0
LostAt id s = (a : AttemptRecord) × (lookup id s.attempts ≡ some a) × (a.state ≡ AttemptState.lost)

pub get_attempt-found :
    (id : Uuid) (s : RunRepository) (a : AttemptRecord)
    → (get_attempt id s).0 ≡ ok a
    → (lookup id s.attempts ≡ some a) × ((get_attempt id s).1 ≡ s)
unfolding get_attempt get_attempt_locked
get_attempt-found id s a = elim (Option-cases (lookup id s.attempts)) [
  | inl e ↦ rw e (λ h. cc)
  | inr (b, e) ↦ rw e (λ h. (ap some (ok_same b a h), refl))
]

module _ (sha256 : Text → Text) (self : RunnerManager) (task : TaskEnvelope) where
  -- The handler of `close_attempt`.
  abbrev read_lost : Error → Method Bool
  read_lost e = do
    current ← get_attempt task.attempt_id
    if attempt_is current.state AttemptState.lost then pure false else raise e

  abbrev on_error : Error → Method Bool
  on_error e = if is_invalid_transition e then read_lost e else raise e

  on_error-LostAt :
      (e : Error) (s : RunRepository) (closed : Bool)
      → (on_error e s).0 ≡ ok closed
      → (closed ≡ false) × LostAt task.attempt_id (on_error e s).1
  on_error-LostAt e s closed h =
      elim (if_returns (is_invalid_transition e) (read_lost e) (raise e) s closed h) [
        | inr (b, k, st) ↦ cc
        | inl (b, k, st) ↦
            let (a, found, l, st') =
              bind_returns (get_attempt task.attempt_id)
                (λ current.
                  if attempt_is current.state AttemptState.lost then pure false else raise e)
                s closed k in
            let (here, same) = get_attempt-found task.attempt_id s a found in
            elim (if_returns (attempt_is a.state AttemptState.lost) (pure false) (raise e)
              (get_attempt task.attempt_id s).1 closed l) [
                | inr (c, n, at) ↦ cc
                | inl (c, n, at) ↦ (
                  sym (ok_same false closed n),
                  subst (LostAt task.attempt_id) (sym (st ∙ st' ∙ at ∙ same))
                      (a, here, state_lost a.state c),
                )
              ]
      ]

  -- `close_attempt` returns after the result is stored, or when the attempt is lost.
  abbrev pub ClosedOrLost : ResultEnvelope → Bool → RunRepository → Type 0
  ClosedOrLost result closed s =
      (closed ≡ true)
        × ((a : AttemptRecord) × (lookup task.attempt_id s.attempts ≡ some a) × Records result a)
      ⊎ (closed ≡ false) × LostAt task.attempt_id s

  abbrev collecting : Method (Unit {0})
  collecting =
      transition_attempt task.attempt_id AttemptState.collecting (self.clocks 3) >>= λ a. pure tt

  abbrev completing : ResultEnvelope → Method AttemptRecord
  completing result =
      complete_attempt task.attempt_id (attempt_result result.outcome) result (self.clocks 4)

  abbrev completed : ResultEnvelope → Method Bool
  completed result = completing result >>= λ a. pure true

  pub close_attempt-ClosedOrLost :
      (result : ResultEnvelope) (s : RunRepository) (closed : Bool)
      → (close_attempt sha256 self task result s).0 ≡ ok closed
      → ClosedOrLost result closed (close_attempt sha256 self task result s).1
  unfolding close_attempt
  close_attempt-ClosedOrLost result s closed h =
      elim (rescue_returns (collecting >>= λ u. completed result) on_error s closed h) [
        | inr (e, up, k, st) ↦
            let (is_false, lost) =
              on_error-LostAt e ((collecting >>= λ u. completed result) s).1 closed k in
            inr (is_false, subst (LostAt task.attempt_id) (sym st) lost)
        | inl (k, st) ↦
            let (u, moved, l, at) = bind_returns collecting (λ u. completed result) s closed k in
            let (a, stored, n, at') =
              bind_returns (completing result) (λ a. pure true) (collecting s).1 closed l in
            let (found, ended) =
              complete_attempt-Records task.attempt_id result (self.clocks 4) (collecting s).1 a
                stored in
            inl (
              sym (ok_same true closed n),
              (
                a,
                ap (λ (x : RunRepository). lookup task.attempt_id x.attempts) (st ∙ at ∙ at')
                    ∙ found,
                ended,
              ),
            )
      ]
