-- ===== src/Manager/Identified.antt =====
-- The results of services/runner_manager.py carry the run, the attempt and the engine of the task.
use smarttest_platform.Base.{
  ◌>>=◌, refl, ◌≡◌, if◌then◌else◌, nat_eq, ==_iff, none, some, pure, raise_if, arith, Error, false,
  Option, ok, runner_identity_error, Bool, inl, inr, length, true,
}
use smarttest_platform.Protocol.{ResultOutcome, ResultEnvelope, TaskEnvelope, engine_beq_iff}
use smarttest_platform.Manager.Returns.{
  ok_same, bind_returns, rescue_returns, if_returns, raise_if_returns,
}
use smarttest_platform.Manager.Closed.{IsOf}
use smarttest_platform.Repository.State.{RunRepository}
use mathlib.Core.Path.{subst, sym}
use smarttest_platform.Base.Text.{Text}
use smarttest_platform.Manager.{
  RunnerManager, misidentified, Method, guarded, adjust, conclude, infra_result, Execution, get,
  run_execution, run_is, list_attempts, is_identity_error, RunState, cancelled_result, decide_retry,
  outcome_beq, retry, close_run, raise_identity,
}

module _ (sha256 : Text → Text) (self : RunnerManager) (task : TaskEnvelope) where
  IsOf-infra_result : (e : Error) → IsOf task (infra_result sha256 self task e)
  IsOf-infra_result e = (refl, refl, refl)

  IsOf-identified :
      (r : ResultEnvelope)
      → misidentified sha256 self task r.run_id r.attempt_id r.engine ≡ false
      → IsOf task r
  IsOf-identified r h = (
    (==_iff r.run_id task.run_id).0 (ground arith),
    (==_iff r.attempt_id task.attempt_id).0 (ground arith),
    (engine_beq_iff r.engine task.engine).0 (ground arith),
  )

  -- What `guarded` returns is a result of the task.
  abbrev identified : ResultEnvelope → Method (Option Error × ResultEnvelope)
  identified result =
      raise_if (misidentified sha256 self task result.run_id result.attempt_id result.engine)
        runner_identity_error
      >>= λ u. pure (none, result)

  pub guarded-IsOf :
      (execution : Execution) (s : RunRepository) (ran : Option Error × ResultEnvelope)
      → (guarded sha256 self task execution s).0 ≡ ok ran
      → IsOf task ran.1
  unfolding guarded
  guarded-IsOf execution s ran h =
      elim (rescue_returns (run_execution sha256 self task execution >>= identified)
        (λ e. pure (if is_identity_error e then some e else none, infra_result sha256 self task e))
        s ran h) [
          | inr (e, up, k, st) ↦
              subst (λ (x : Option Error × ResultEnvelope). IsOf task x.1)
                (ok_same (_, infra_result sha256 self task e) ran k) (IsOf-infra_result e)
          | inl (k, st) ↦
              let (r, ended, l, at) =
                bind_returns (run_execution sha256 self task execution) identified s ran k in
              let (u, passed, n, at') =
                bind_returns
                  (raise_if (misidentified sha256 self task r.run_id r.attempt_id r.engine)
                    runner_identity_error)
                  (λ v. pure (none, r)) (run_execution sha256 self task execution s).1 ran l in
              let (named, same) = raise_if_returns _ runner_identity_error _ u passed in
              subst (λ (x : Option Error × ResultEnvelope). IsOf task x.1) (ok_same (none, r) ran n)
                (IsOf-identified r named)
        ]

  cancels : ResultEnvelope → Method ResultEnvelope
  cancels result = do
    run ← get task.run_id
    pure (
        if run_is run.state RunState.cancelling
        then cancelled_result sha256 self task result
        else result)

  pub adjust-IsOf :
      (result adjusted : ResultEnvelope) (s : RunRepository)
      → IsOf task result
      → (adjust sha256 self task result s).0 ≡ ok adjusted
      → IsOf task adjusted
  unfolding adjust cancels
  adjust-IsOf result adjusted s named h =
      elim (if_returns (outcome_beq result.outcome ResultOutcome.succeeded) (cancels result)
        (pure result) s adjusted h) [
          | inr (b, k, st) ↦ subst (IsOf task) (ok_same result adjusted k) named
          | inl (b, k, st) ↦
              let (run, read, l, at) =
                bind_returns (get task.run_id)
                  (λ run. pure (
                    if run_is run.state RunState.cancelling
                    then cancelled_result sha256 self task result
                    else result))
                  s adjusted k in
              subst (IsOf task) (ok_same _ adjusted l)
                (chosen (run_is run.state RunState.cancelling))
        ]
    where
      chosen :
          (b : Bool) → IsOf task (if b then cancelled_result sha256 self task result else result)
      chosen true = (refl, refl, refl)
      chosen false = named

  -- `conclude` returns the result that it is given.
  gives_back :
      {A : Type 0} (m : Method A) (r x : ResultEnvelope) (s : RunRepository)
      → ((m >>= λ a. pure r) s).0 ≡ ok x
      → x ≡ r
  gives_back m r x s h =
      let (a, ran, k, at) = bind_returns m (λ a. pure r) s x h in sym (ok_same r x k)

  pub conclude-same :
      (e : Option Error) (r x : ResultEnvelope) (s : RunRepository)
      → (conclude sha256 self task e r s).0 ≡ ok x
      → x ≡ r
  unfolding conclude
  conclude-same e r x s h =
      let (attempts, listed, k, at) =
        bind_returns (list_attempts task.run_id)
          (λ attempts.
            let decision = decide_retry task r (length attempts) in
            if decision.should_retry
            then (retry sha256 self task self.retry_scheduler decision >>= λ u. pure r)
            else (close_run sha256 self task r >>= λ u.
                raise_identity sha256 self task e >>= λ v. pure r))
          s x h in
      let decision = decide_retry task r (length attempts) in
      elim (if_returns decision.should_retry
        (retry sha256 self task self.retry_scheduler decision >>= λ u. pure r)
        (close_run sha256 self task r >>= λ u. raise_identity sha256 self task e >>= λ v. pure r)
        (list_attempts task.run_id s).1 x k) [
          | inl (b, l, st) ↦
              gives_back (retry sha256 self task self.retry_scheduler decision) r x
                (list_attempts task.run_id s).1 l
          | inr (b, l, st) ↦
              let (u, closed, n, st') =
                bind_returns (close_run sha256 self task r)
                  (λ u. raise_identity sha256 self task e >>= λ v. pure r)
                  (list_attempts task.run_id s).1 x l in
              gives_back (raise_identity sha256 self task e) r x
                (close_run sha256 self task r (list_attempts task.run_id s).1).1 n
        ]
