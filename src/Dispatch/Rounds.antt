-- ===== src/Dispatch/Rounds.antt =====
-- The rounds of services/api/execution_coordinator.py come to an end.
use smarttest_platform.Base.{
  ℕ, zero, suc, ◌+◌, ◌≤◌, ◌<◌, ◌∷◌, [], List, false, Option, some, Result, ok, err, ◌≡◌, refl, ap,
  ◌∙◌, Result-cases, arith, inl, inr, nat_eq, length, ◌>>=◌, pure,
}
use smarttest_platform.Base.Exec.{state_bind_pure}
use smarttest_platform.Base.Dict.{lookup}
use smarttest_platform.Protocol.{Uuid}
use smarttest_platform.Domain.State.{RunState}
use smarttest_platform.Repository.State.{Clock, Method, RunRepository}
use smarttest_platform.Repository.Runs.{transition}
use smarttest_platform.Plan.Methods.{TestPlanRepository}
use smarttest_platform.Plan.Records.{ExecutionBatchRecord}
use smarttest_platform.Plan.Batches.{claim_available_runs}
use smarttest_platform.Plan.InFlight.{IsKeyed, AllDistinct, fresh}
use smarttest_platform.Plan.Claims.{claim_available_runs-cases}
use smarttest_platform.Dispatch.Coordinator.{
  DispatchResult, on_runs, prepend, failed_dispatch, dispatch_run, dispatch_claimed, after_dispatch,
  after_claim, dispatch_available, prepend_all, next_round,
}
use smarttest_platform.Dispatch.Calm.{IsCalm, IsCalm-trans, IsCalm-refl, transition-IsCalm}

fresh_le :
    (ids : List Uuid) (s s' : TestPlanRepository)
    → IsCalm s.run_store s'.run_store
    → fresh ids s' ≤ fresh ids s
unfolding fresh
fresh_le [] s s' h = omega arith
fresh_le (id ∷ ids) s s' h = ground (arith, h.1 id, fresh_le ids s s' h)

-- What a step of a round does to the plans and runs.
abbrev IsStep : TestPlanRepository → TestPlanRepository → Type 0
IsStep s s' = (s'.batches ≡ s.batches) × IsCalm s.run_store s'.run_store

-- the later rounds have a result
abbrev Ending :
    ℕ
    → (ℕ → TestPlanRepository → Option (Result DispatchResult × TestPlanRepository))
    → TestPlanRepository
    → Type 0
Ending m again s =
    (out : Result DispatchResult × TestPlanRepository) × ((fuel : ℕ)
      → m ≤ fuel
      → again fuel s ≡ some out)

next_round-ends :
    (m : ℕ) (again : ℕ → TestPlanRepository → Option (Result DispatchResult × TestPlanRepository))
    (d : DispatchResult) (ids : List Uuid) (s : TestPlanRepository)
    → Ending m again s
    → Ending m (λ fuel. next_round (again fuel) d ids) s
unfolding next_round
next_round-ends m again d [] s h = ((ok d, s), λ fuel enough. refl)
next_round-ends m again d (id ∷ ids) s ((ok q, t), h) =
    ((ok (prepend d q), t), λ fuel enough. ap (prepend_all d) (h fuel enough))
next_round-ends m again d (id ∷ ids) s ((err x, t), h) =
    ((err x, t), λ fuel enough. ap (prepend_all d) (h fuel enough))

module _ (dispatcher : Uuid → Clock → Method (Unit {0}))
    (calm : (id : Uuid) (clock : Clock) (s : RunRepository)
      → IsCalm s (dispatcher id clock s).1) where
  dispatch_run-IsStep :
      (id : Uuid) (clock clock' : Clock) (s : TestPlanRepository)
      → IsStep s (dispatch_run dispatcher id clock clock' s).1
  unfolding dispatch_run failed_dispatch
  dispatch_run-IsStep id clock clock' s = elim (Result-cases (dispatcher id clock s.run_store).0) [
    | inl (u, e) ↦ rw e (refl, calm id clock s.run_store)
    | inr (x, e) ↦ rw e (
        recovered (record s { run_store = (dispatcher id clock s.run_store).1 })
          (calm id clock s.run_store))
  ]
    where
      recovered :
          (t : TestPlanRepository)
          → IsCalm s.run_store t.run_store
          → (((on_runs (transition id RunState.infra_error clock') >>= λ run. pure false)
                t).1.batches
              ≡ t.batches)
            × IsCalm s.run_store
                ((on_runs (transition id RunState.infra_error clock') >>= λ run. pure false)
                  t).1.run_store
      recovered t h =
          rw
            (state_bind_pure (on_runs (transition id RunState.infra_error clock')) (λ run. false) t)
            (
              refl,
              IsCalm-trans s.run_store t.run_store
                  (transition id RunState.infra_error clock' t.run_store).1 h
                  (transition-IsCalm id RunState.infra_error clock' t.run_store refl),
            )

  dispatch_claimed-IsStep :
      (ids : List Uuid) (clocks : ℕ → Clock) (s : TestPlanRepository)
      → IsStep s (dispatch_claimed dispatcher ids clocks s).1
  unfolding dispatch_claimed
  dispatch_claimed-IsStep [] clocks s = (refl, IsCalm-refl s.run_store)
  dispatch_claimed-IsStep (id ∷ ids) clocks s =
      let (kept, step) = dispatch_run-IsStep id (clocks 0) (clocks 1) s in
      elim (Result-cases (dispatch_run dispatcher id (clocks 0) (clocks 1) s).0) [
        | inr (x, e) ↦ rw e (kept, step)
        | inl (b, e) ↦
            let s' = (dispatch_run dispatcher id (clocks 0) (clocks 1) s).1 in
            let later = λ (n : ℕ). clocks (suc (suc n)) in
            let (kept', step') = dispatch_claimed-IsStep ids later s' in
            elim (Result-cases (dispatch_claimed dispatcher ids later s').0) [
              | inr (x, f) ↦
                  rw (e, f)
                    (
                      kept' ∙ kept,
                      joined s' step (dispatch_claimed dispatcher ids later s').1 step',
                    )
              | inl (d, f) ↦
                  rw (e, f)
                    (
                      kept' ∙ kept,
                      joined s' step (dispatch_claimed dispatcher ids later s').1 step',
                    )
            ]
      ]
    where
      joined :
          (t : TestPlanRepository)
          → IsCalm s.run_store t.run_store
          → (u : TestPlanRepository) → IsCalm t.run_store u.run_store
          → IsCalm s.run_store u.run_store
      joined t f u g = IsCalm-trans s.run_store t.run_store u.run_store f g

  -- A loop with enough fuel has a result, whatever the fuel.
  abbrev pub Terminates : ℕ → (ℕ → ℕ → Clock) → Uuid → TestPlanRepository → Type 0
  Terminates m rounds batch_id s =
      (out : Result DispatchResult × TestPlanRepository) × ((fuel : ℕ)
        → m < fuel
        → dispatch_available dispatcher fuel rounds batch_id s ≡ some out)

  after_dispatch-ends :
      (m : ℕ) (again : ℕ → TestPlanRepository → Option (Result DispatchResult × TestPlanRepository))
      (r : Result DispatchResult) (s : TestPlanRepository)
      → Ending m again s
      → Ending m (λ fuel. after_dispatch dispatcher (again fuel) r) s
  unfolding after_dispatch
  after_dispatch-ends m again (err e) s h = ((err e, s), λ fuel enough. refl)
  after_dispatch-ends m again (ok d) s h = next_round-ends m again d d.failed s h

  round :
      (fuel : ℕ) (rounds : ℕ → ℕ → Clock) (batch_id : Uuid) (s s' : TestPlanRepository)
      (r : Result (List Uuid))
      → claim_available_runs batch_id (rounds 0 0) s ≡ (r, s')
      → dispatch_available dispatcher (suc fuel) rounds batch_id s
        ≡ after_claim dispatcher
            (dispatch_available dispatcher fuel (λ n. rounds (suc n)) batch_id)
            (λ n. rounds 0 (suc n))
            r
            s'
  unfolding dispatch_available
  round fuel rounds batch_id s s' r e = rw e refl

  -- One round, whose later ones end on every store with fewer runs that are not queued.
  round-ends :
      (m : ℕ) (rounds : ℕ → ℕ → Clock) (batch_id : Uuid) (s : TestPlanRepository)
      (batch : ExecutionBatchRecord)
      → IsKeyed s.run_store
      → lookup batch_id s.batches ≡ some batch
      → AllDistinct batch.run_ids
      → ((t : TestPlanRepository)
          → IsKeyed t.run_store
          → lookup batch_id t.batches ≡ some batch
          → fresh batch.run_ids t < fresh batch.run_ids s
          → Ending m (λ fuel. dispatch_available dispatcher fuel (λ n. rounds (suc n)) batch_id) t)
      → Ending m (λ fuel. dispatch_available dispatcher (suc fuel) rounds batch_id) s
  unfolding after_claim
  round-ends m rounds batch_id s batch keyed found distinct later =
      elim (claim_available_runs-cases batch_id (rounds 0 0) s batch keyed found distinct) [
        | inl (x, e) ↦ ((err x, s), λ fuel enough. round fuel rounds batch_id s s (err x) e)
        | inr ([], s', e, kept, keyed', left) ↦ (
          (ok (record { dispatched = []; failed = [] }), s'),
          λ fuel enough. round fuel rounds batch_id s s' (ok []) e,
        )
        | inr (id ∷ ids, s', e, kept, keyed', left) ↦
            let clocks = λ (n : ℕ). rounds 0 (suc n) in
            let out = dispatch_claimed dispatcher (id ∷ ids) clocks s' in
            let (kept', step) = dispatch_claimed-IsStep (id ∷ ids) clocks s' in
            let (result, same) =
              after_dispatch-ends m
                (λ fuel. dispatch_available dispatcher fuel (λ n. rounds (suc n)) batch_id) out.0
                out.1
                (later out.1 (step.0 keyed') (ap (λ d. lookup batch_id d) (kept' ∙ kept) ∙ found)
                  (fewer ids s' out.1 left (fresh_le batch.run_ids s' out.1 step))) in
            (
              result,
              λ fuel enough. round fuel rounds batch_id s s' (ok (id ∷ ids)) e ∙ same fuel enough,
            )
      ]
    where
      fewer :
          (ids : List Uuid) (s' t : TestPlanRepository)
          → fresh batch.run_ids s' + suc (length ids) ≡ fresh batch.run_ids s
          → fresh batch.run_ids t ≤ fresh batch.run_ids s'
          → fresh batch.run_ids t < fresh batch.run_ids s
      fewer ids s' t left small = omega (arith, left, small)

  enough_fuel :
      (m : ℕ) (rounds : ℕ → ℕ → Clock) (batch_id : Uuid) (s : TestPlanRepository)
      → Ending m (λ fuel. dispatch_available dispatcher (suc fuel) rounds batch_id) s
      → Terminates m rounds batch_id s
  enough_fuel m rounds batch_id s (out, h) = (out, result)
    where
      result :
          (fuel : ℕ) → m < fuel → dispatch_available dispatcher fuel rounds batch_id s ≡ some out
      result zero enough = absurd (omega (arith, enough))
      result (suc fuel) enough = h fuel (omega (arith, enough))

  -- The loop over the rounds ends: with a dispatcher that makes no run CREATED and leaves the runs
  -- under their identifiers, for a batch with distinct runs of which at most `m` are CREATED, the
  -- call returns or raises within m + 1 rounds, and more fuel gives the same result.
  pub dispatch_available-Terminates :
      (m : ℕ) (rounds : ℕ → ℕ → Clock) (batch_id : Uuid) (s : TestPlanRepository)
      (batch : ExecutionBatchRecord)
      → IsKeyed s.run_store
      → lookup batch_id s.batches ≡ some batch
      → AllDistinct batch.run_ids
      → fresh batch.run_ids s ≤ m
      → Terminates m rounds batch_id s
  dispatch_available-Terminates zero rounds batch_id s batch keyed found distinct small =
      enough_fuel zero rounds batch_id s (
        round-ends zero rounds batch_id s batch keyed found distinct
          (λ t k f less. absurd (omega (arith, less, small))))
  dispatch_available-Terminates (suc m) rounds batch_id s batch keyed found distinct small =
      enough_fuel (suc m) rounds batch_id s (
        round-ends (suc m) rounds batch_id s batch keyed found distinct (λ t k f less.
          dispatch_available-Terminates m (λ n. rounds (suc n)) batch_id t batch k f distinct
            (omega (arith, less, small))))
