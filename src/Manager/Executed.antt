-- ===== src/Manager/Executed.antt =====
-- `RunnerManager.execute` of services/runner_manager.py, from its start to the attempt it leaves.
use smarttest_platform.Base.{
  ◌>>=◌, refl, ◌≡◌, if◌then◌else◌, ◌∙◌, nat_eq, some, pure, ◌⊎◌, Error, false, Option, ok, Bool,
  inl, inr, clash, true,
}
use smarttest_platform.Protocol.{ResultOutcome, ResultEnvelope, TaskEnvelope, Uuid}
use smarttest_platform.Manager.Returns.{ok_same, bind_returns, if_returns}
use smarttest_platform.Manager.Closed.{
  Records, IsOf, LostAt, get_attempt-found, close_attempt-ClosedOrLost, Closes-terminal,
  ClosedOrLost, state_lost,
}
use smarttest_platform.Manager.Runs.{
  IsQuiet, AllDrawNothing, conclude-calls, prepare_attempt-calls, close_attempt-calls,
  guarded-calls, adjust-calls,
}
use smarttest_platform.Repository.Attempts.{get_attempt}
use smarttest_platform.Repository.State.{RunRepository}
use smarttest_platform.Repository.Calls.{Calls, Calls-Evolves, Calls-WellFormed}
use smarttest_platform.Manager.Rules.{Calls-trans}
use smarttest_platform.Manager.Identified.{guarded-IsOf, adjust-IsOf, conclude-same}
use mathlib.Core.Path.{subst, sym, ap}
use smarttest_platform.Domain.Records.{AttemptRecord}
use smarttest_platform.Base.Text.{Text}
use smarttest_platform.Base.Dict.{lookup}
use smarttest_platform.Repository.WellFormed.{WellFormed}
use smarttest_platform.Manager.{
  RunnerManager, Method, guarded, adjust, conclude, AttemptState, Execution, callback_calls,
  lost_result, record_result, execute, close_attempt, prepare_attempt,
}
use smarttest_platform.Repository.Calls.{Calls-Evolves}
use smarttest_platform.Domain.State.{attempt_terminal, attempt_is}

-- The attempt under the identifier has ended with the result, or is lost.
abbrev pub Ended : Uuid → ResultEnvelope → RunRepository → Type 0
Ended id result s =
    (a : AttemptRecord) × (lookup id s.attempts ≡ some a)
    × (Records result a
        ⊎ (a.state ≡ AttemptState.lost) × (result.outcome ≡ ResultOutcome.infra_error))

module _ (sha256 : Text → Text) where
  -- Calls of the repository keep an attempt that has ended.
  Ended-Calls :
      (id : Uuid) (result : ResultEnvelope) (s t : RunRepository)
      → WellFormed s
      → Calls sha256 s t
      → Ended id result s
      → Ended id result t
  Ended-Calls id result s t w run (a, found, ended) =
      let (a', found', later) = (Calls-Evolves sha256 s t w run).attempts id a found in
      elim later.change [
        | inl same ↦ (a, found' ∙ ap some same, ended)
        | inr going ↦ elim ended [
          | inl records ↦ clash (Closes-terminal result.outcome a.state records.0) going
          | inr (is_lost, o) ↦ clash (ap attempt_terminal is_lost) going
        ]
      ]

  module _ (self : RunnerManager) (task : TaskEnvelope) where
    module _
        (quiet : AllDrawNothing (callback_calls sha256 self task self.completion_callback)) where
      abbrev ending : Option Error → ResultEnvelope → Bool → Method ResultEnvelope
      ending e r closed =
          if closed then conclude sha256 self task e r else pure (lost_result sha256 self task)

      abbrev recording : Option Error → ResultEnvelope → AttemptRecord → Method ResultEnvelope
      recording e r current =
          if attempt_is current.state AttemptState.lost
          then pure (lost_result sha256 self task)
          else close_attempt sha256 self task r >>= ending e r

      -- An attempt that is found lost stays so, with the result that says it.
      lost-Ended :
          (x : ResultEnvelope) (s : RunRepository)
          → ok (lost_result sha256 self task) ≡ ok x
          → LostAt task.attempt_id s
          → Ended task.attempt_id x s × IsOf task x
      lost-Ended x s h (a, found, is_lost) =
          subst (λ y. Ended task.attempt_id y s × IsOf task y)
            (ok_same (lost_result sha256 self task) x h)
            ((a, found, inr (is_lost, refl)), (refl, refl, refl))

      ending-Ended :
          (e : Option Error) (r x : ResultEnvelope) (closed : Bool) (s : RunRepository)
          → WellFormed s
          → IsOf task r
          → ClosedOrLost sha256 self task r closed s
          → (ending e r closed s).0 ≡ ok x
          → Ended task.attempt_id x (ending e r closed s).1 × IsOf task x
      ending-Ended e r x true s w named (inl (is_true, (a, found, ended))) h =
          subst (λ y. Ended task.attempt_id y (conclude sha256 self task e r s).1 × IsOf task y)
            (sym (conclude-same sha256 self task e r x s h))
            (
              Ended-Calls task.attempt_id r s _ w ((conclude-calls sha256 self task quiet e r).at s)
                  (a, found, inl ended),
              named,
            )
      ending-Ended e r x true s w named (inr (is_false, lost)) h = cc
      ending-Ended e r x false s w named (inl (is_true, (a, found, ended))) h = cc
      ending-Ended e r x false s w named (inr (is_false, lost)) h = lost-Ended x s h lost

      record_result-Ended :
          (e : Option Error) (r x : ResultEnvelope) (s : RunRepository)
          → WellFormed s
          → IsOf task r
          → (record_result sha256 self task e r s).0 ≡ ok x
          → Ended task.attempt_id x (record_result sha256 self task e r s).1 × IsOf task x
      unfolding record_result
      record_result-Ended e r x s w named h =
          let (current, read, k, at) =
            bind_returns (get_attempt task.attempt_id) (recording e r) s x h in
          let (here, same) = get_attempt-found task.attempt_id s current read in
          let s' = (get_attempt task.attempt_id s).1 in
          subst (λ t. Ended task.attempt_id x t × IsOf task x) (sym at)
            (elim (if_returns (attempt_is current.state AttemptState.lost)
              (pure (lost_result sha256 self task))
              (close_attempt sha256 self task r >>= ending e r) s' x k) [
                | inl (b, l, st) ↦
                    subst (λ t. Ended task.attempt_id x t × IsOf task x) (sym (st ∙ same))
                      (lost-Ended x s l (current, here, state_lost current.state b))
                | inr (b, l, st) ↦
                    let (closed, done, n, st') =
                      bind_returns (close_attempt sha256 self task r) (ending e r) s' x l in
                    subst (λ t. Ended task.attempt_id x t × IsOf task x) (sym (st ∙ st'))
                      (ending-Ended e r x closed (close_attempt sha256 self task r s').1
                        (Calls-WellFormed sha256 (subst WellFormed (sym same) w)
                          ((close_attempt-calls sha256 self task r).at s'))
                        named (close_attempt-ClosedOrLost sha256 self task r s' closed done) n)
              ])

      -- A task that the manager executes on a store whose indexes agree, while others create no run
      -- and nor does the completion callback: when `execute` returns a result, whatever the executor
      -- did, the result is one of the task's run, attempt and engine, and the task's attempt stands
      -- in the store with the state of the result's outcome and the result's outcome, duration,
      -- summary and time, or the attempt is lost and the result is an infrastructure error.
      pub execute_closed :
          (execution : Execution) (s : RunRepository) (result : ResultEnvelope)
          → WellFormed s
          → IsQuiet execution
          → (execute sha256 self task execution s).0 ≡ ok result
          → Ended task.attempt_id result (execute sha256 self task execution s).1 × IsOf task result
      unfolding execute
      execute_closed execution s result w q h =
          let finish = λ (ran : Option Error × ResultEnvelope).
            adjust sha256 self task ran.1 >>= record_result sha256 self task ran.0 in
          let (u, prepared, k, at) =
            bind_returns (prepare_attempt sha256 self task)
              (λ u. guarded sha256 self task execution >>= finish) s result h in
          let t = (prepare_attempt sha256 self task s).1 in
          let (ran, did, l, at') =
            bind_returns (guarded sha256 self task execution) finish t result k in
          let v = (guarded sha256 self task execution t).1 in
          let (adjusted, found, n, at'') =
            bind_returns (adjust sha256 self task ran.1) (record_result sha256 self task ran.0) v
              result l in
          subst (λ x. Ended task.attempt_id result x × IsOf task result) (sym (at ∙ at' ∙ at''))
            (record_result-Ended ran.0 adjusted result (adjust sha256 self task ran.1 v).1
              (Calls-WellFormed sha256 w (
                Calls-trans sha256 ((prepare_attempt-calls sha256 self task).at s) (
                  Calls-trans sha256 ((guarded-calls sha256 self task execution q).at t)
                    ((adjust-calls sha256 self task ran.1).at v))))
              (adjust-IsOf sha256 self task ran.1 adjusted v
                (guarded-IsOf sha256 self task execution t ran did) found)
              n)
