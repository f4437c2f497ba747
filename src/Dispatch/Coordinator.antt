-- ===== src/Dispatch/Coordinator.antt =====
-- services/api/execution_coordinator.py. The dispatcher is a parameter, as in the source.
use smarttest_platform.Base.{
  ℕ, zero, suc, ◌∷◌, [], List, ◌++◌, Bool, true, false, Option, none, some, Result, ok, err, pure,
  ◌>>=◌,
}
use smarttest_platform.Protocol.{Uuid}
use smarttest_platform.Domain.State.{RunState}
use smarttest_platform.Repository.State.{Clock, Method}
use smarttest_platform.Repository.Runs.{transition}
use smarttest_platform.Plan.Methods.{TestPlanRepository, PlanMethod, get_run_spec}
use smarttest_platform.Plan.Batches.{claim_available_runs}

pub record DispatchResult : Type 0 where
  pub dispatched : List Uuid
  pub failed : List Uuid

-- A method of `self._runs`, which is the run repository of the plans.
abbrev pub on_runs {ℓ} : {A : Type ℓ} → Method A → PlanMethod A
on_runs m s = let (r, runs) = m s.run_store in (r, record s { run_store = runs })

abbrev pub add_dispatched : Uuid → DispatchResult → DispatchResult
add_dispatched id d = record d { dispatched = id ∷ d.dispatched }

abbrev pub add_failed : Uuid → DispatchResult → DispatchResult
add_failed id d = record d { failed = id ∷ d.failed }

-- What a round puts before the later ones.
abbrev pub prepend : DispatchResult → DispatchResult → DispatchResult
prepend d e = record { dispatched = d.dispatched ++ e.dispatched; failed = d.failed ++ e.failed }

abbrev pub prepend_all :
    DispatchResult
    → Option (Result DispatchResult × TestPlanRepository)
    → Option (Result DispatchResult × TestPlanRepository)
prepend_all d none = none
prepend_all d (some (ok e, s)) = some (ok (prepend d e), s)
prepend_all d (some (err x, s)) = some (err x, s)

-- `if not refill: break`: a run that failed makes room
unfoldable pub next_round :
    (TestPlanRepository → Option (Result DispatchResult × TestPlanRepository))
    → DispatchResult
    → List Uuid
    → TestPlanRepository
    → Option (Result DispatchResult × TestPlanRepository)
next_round again d [] s = some (ok d, s)
next_round again d (id ∷ ids) s = prepend_all d (again s)

module _ (dispatcher : Uuid → Clock → Method (Unit {0})) where
  -- `except Exception` of the loop over the claimed runs: what `dispatch` wrote stays
  unfoldable pub failed_dispatch : Uuid → Clock → Result (Unit {0}) → PlanMethod Bool
  failed_dispatch run_id clock (ok u) = pure true
  failed_dispatch run_id clock (err e) =
      on_runs (transition run_id RunState.infra_error clock) >>= λ run. pure false

  -- whether the run was dispatched
  unfoldable pub dispatch_run : Uuid → Clock → Clock → PlanMethod Bool
  dispatch_run run_id clock clock' s =
      let (r, s') = on_runs (dispatcher run_id clock) s in failed_dispatch run_id clock' r s'

  -- `for run_id in claimed`; run n of the list has the clocks 2 n and 2 n + 1
  unfoldable pub dispatch_claimed : List Uuid → (ℕ → Clock) → PlanMethod DispatchResult
  dispatch_claimed [] clocks = pure (record { dispatched = []; failed = [] })
  dispatch_claimed (run_id ∷ claimed) clocks = do
    dispatched ← dispatch_run run_id (clocks 0) (clocks 1)
    rest ← dispatch_claimed claimed (λ n. clocks (suc (suc n)))
    pure (elim dispatched [ true ↦ add_dispatched run_id rest | false ↦ add_failed run_id rest ])

  -- The result of the loop from a round whose later ones are `again`.
  unfoldable pub after_dispatch :
      (TestPlanRepository → Option (Result DispatchResult × TestPlanRepository))
      → Result DispatchResult
      → TestPlanRepository
      → Option (Result DispatchResult × TestPlanRepository)
  after_dispatch again (err e) s = some (err e, s)
  after_dispatch again (ok d) s = next_round again d d.failed s

  unfoldable pub after_claim :
      (TestPlanRepository → Option (Result DispatchResult × TestPlanRepository))
      → (ℕ → Clock)
      → Result (List Uuid)
      → TestPlanRepository
      → Option (Result DispatchResult × TestPlanRepository)
  after_claim again clocks (err e) s = some (err e, s)
  after_claim again clocks (ok []) s = some (ok (record { dispatched = []; failed = [] }), s)
  after_claim again clocks (ok (id ∷ ids)) s =
      let (r, s') = dispatch_claimed (id ∷ ids) clocks s in after_dispatch again r s'

  -- `while True`, at most as often as the fuel says; `none` is a loop that is not done. Round n has
  -- the clocks `rounds n`.
  unfoldable pub dispatch_available :
      ℕ
      → (ℕ → ℕ → Clock)
      → Uuid
      → TestPlanRepository
      → Option (Result DispatchResult × TestPlanRepository)
  dispatch_available zero rounds batch_id s = none
  dispatch_available (suc fuel) rounds batch_id s =
      let (r, s') = claim_available_runs batch_id (rounds 0 0) s in
      after_claim (dispatch_available fuel (λ n. rounds (suc n)) batch_id) (λ n. rounds 0 (suc n)) r
        s'

  unfoldable pub on_run_finished :
      ℕ
      → (ℕ → ℕ → Clock)
      → Uuid
      → TestPlanRepository
      → Option (Result DispatchResult × TestPlanRepository)
  on_run_finished fuel rounds run_id s = elim (get_run_spec run_id s).0 [
    | ok spec ↦ dispatch_available fuel rounds spec.batch_id s
    | err e ↦ some (err e, s)
  ]
