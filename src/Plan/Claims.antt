-- ===== src/Plan/Claims.antt =====
-- `claim_available_runs` of services/api/test_plan_repository.py and the limit of a batch.
use smarttest_platform.Base.{
  ℕ, zero, suc, ◌+◌, ◌-◌, ◌≤◌, ◌∷◌, [], List, some, ok, err, ◌≡◌, refl, ap, Option-cases,
  Bool-cases, arith, ◌⊎◌, inl, inr, nat_eq, count_if, length, min, ◌∙◌, Error, run_not_found, sym,
  Result, Result-cases,
}
use smarttest_platform.Base.Dict.{lookup}
use smarttest_platform.Protocol.{Uuid}
use smarttest_platform.Domain.Records.{RunRecord}
use smarttest_platform.Plan.Methods.{TestPlanRepository}
use smarttest_platform.Plan.Batches.{
  occupied_state, store_run, claim_each, all_locked, claim_available_runs,
}
use smarttest_platform.Domain.State.{run_is, RunState}
use smarttest_platform.Repository.State.{Clock, get_locked}
use mathlib.Core.Path.{subst}
use smarttest_platform.Plan.Records.{ExecutionBatchRecord}
use smarttest_platform.Plan.InFlight.{Stored, AllDistinct, occupied, IsKeyed, IsKeyed-put, fresh}
use smarttest_platform.Plan.Claiming.{claims, queued, minus_one, Turn}

-- What `all_locked` reads is stored.
Stored-all_locked :
    (ids : List Uuid) (s : TestPlanRepository)
    → ((k : Uuid) (r : RunRecord) → lookup k s.run_store.runs ≡ some r → r.id ≡ k)
    → ((rs : List RunRecord) × (all_locked ids s.run_store ≡ ok rs) × Stored ids rs s)
      ⊎ ((e : Error) × (all_locked ids s.run_store ≡ err e))
unfolding all_locked get_locked
Stored-all_locked [] s wf = inl ([], refl, tt)
Stored-all_locked (id ∷ ids) s wf = elim (Option-cases (lookup id s.run_store.runs)) [
  | inl e ↦ inr (run_not_found, rw e refl)
  | inr (r, e) ↦ elim (Stored-all_locked ids s wf) [
    | inl (rs, g, h) ↦ inl (r ∷ rs, rw (e, g) refl, (e, wf id r e, h))
    | inr (x, g) ↦ inr (x, rw (e, g) refl)
  ]
]

occupied-Stored :
    (ids : List Uuid) (rs : List RunRecord) (s : TestPlanRepository)
    → Stored ids rs s
    → occupied ids s ≡ count_if (λ (r : RunRecord). occupied_state r.state) rs
unfolding occupied
occupied-Stored [] [] s h = refl
occupied-Stored [] (r ∷ rs) s h = absurd h
occupied-Stored (id ∷ ids) [] s h = absurd h
occupied-Stored (id ∷ ids) (r ∷ rs) s h = rw (h.0, occupied-Stored ids rs s h.2) refl

-- The limit of a batch holds: on a store whose runs stand under their identifiers, for a batch with
-- distinct runs of which at most `max_parallel` are in flight, a claim that returns leaves at most
-- `max_parallel` in flight, and as many more than before as it has claimed. The runs that it
-- returns are the runs of the batch that it takes from CREATED to QUEUED, and it changes no other.
pub claim_available_runs_bounded :
    (batch_id : Uuid) (clock : Clock) (s : TestPlanRepository) (batch : ExecutionBatchRecord)
    (claimed : List Uuid) (k : Uuid)
    → ((k : Uuid) (r : RunRecord) → lookup k s.run_store.runs ≡ some r → r.id ≡ k)
    → lookup batch_id s.batches ≡ some batch
    → AllDistinct batch.run_ids
    → occupied batch.run_ids s ≤ batch.max_parallel
    → (claim_available_runs batch_id clock s).0 ≡ ok claimed
    → (occupied batch.run_ids (claim_available_runs batch_id clock s).1
        ≡ occupied batch.run_ids s + length claimed)
      × (occupied batch.run_ids (claim_available_runs batch_id clock s).1 ≤ batch.max_parallel)
      × Turn k batch.run_ids claimed
          (lookup k s.run_store.runs)
          (lookup k (claim_available_runs batch_id clock s).1.run_store.runs)
unfolding claim_available_runs
claim_available_runs_bounded batch_id clock s batch claimed k wf found distinct fits =
    elim (Stored-all_locked batch.run_ids s wf) [
      | inr (x, e) ↦ rw (found, e) (λ h. cc)
      | inl (rs, e, stored) ↦
          let (ids, s', done, more, size, frame, left, each) =
            claims (batch.max_parallel - count_if (λ (r : RunRecord). occupied_state r.state) rs)
              batch.run_ids rs clock s stored distinct in
          rw (found, e)
            (rw done (λ h.
              within _ _ ids s' more size (occupied-Stored batch.run_ids rs s stored) (each k)
                (cc)))
    ]
  where
    within :
        (fresh n : ℕ) (ids : List Uuid) (s' : TestPlanRepository)
        → occupied batch.run_ids s' ≡ occupied batch.run_ids s + length ids
        → length ids ≡ min (batch.max_parallel - n) fresh
        → occupied batch.run_ids s ≡ n
        → Turn k batch.run_ids ids (lookup k s.run_store.runs) (lookup k s'.run_store.runs)
        → ids ≡ claimed
        → (occupied batch.run_ids s' ≡ occupied batch.run_ids s + length claimed)
          × (occupied batch.run_ids s' ≤ batch.max_parallel)
          × Turn k batch.run_ids claimed (lookup k s.run_store.runs) (lookup k s'.run_store.runs)
    within fresh n ids s' more size flying turn same = (
      omega (arith, more, ap length same),
      omega (arith, more, size, flying, fits),
      subst (λ xs. Turn k batch.run_ids xs (lookup k s.run_store.runs) (lookup k s'.run_store.runs))
          same turn,
    )

claim_each-keeps :
    (rs : List RunRecord) (n : ℕ) (clock : Clock) (s : TestPlanRepository)
    → IsKeyed s.run_store
    → IsKeyed (claim_each rs n clock s).1.run_store
      × ((claim_each rs n clock s).1.batches ≡ s.batches)
unfolding claim_each
claim_each-keeps [] n clock s h = (h, refl)
claim_each-keeps (r ∷ rs) zero clock s h = (h, refl)
claim_each-keeps (r ∷ rs) (suc n) clock s h = elim (Bool-cases (run_is r.state RunState.created)) [
  | inr e ↦ rw e (claim_each-keeps rs (suc n) clock s h)
  | inl e ↦
      let (r', up, busy, idle, past, same, waits) = queued r (clock 0) e in
      let (keyed, kept) =
        claim_each-keeps rs n (λ i. clock (suc i)) (store_run r.id r' s)
          (IsKeyed-put r.id r' s.run_store h same) in
      elim (Result-cases (claim_each rs n (λ i. clock (suc i)) (store_run r.id r' s)).0) [
        | inl (claimed, f) ↦ rw (e, up, minus_one n, f) (keyed, kept)
        | inr (x, f) ↦ rw (e, up, minus_one n, f) (keyed, kept)
      ]
]

-- A claim on a store whose runs stand under their identifiers, of a batch with distinct runs,
-- raises and writes nothing, or queues as many of the runs as it returns.
pub claim_available_runs-cases :
    (batch_id : Uuid) (clock : Clock) (s : TestPlanRepository) (batch : ExecutionBatchRecord)
    → IsKeyed s.run_store
    → lookup batch_id s.batches ≡ some batch
    → AllDistinct batch.run_ids
    → ((e : Error) × (claim_available_runs batch_id clock s ≡ (err e, s)))
      ⊎ ((claimed : List Uuid) × (s' : TestPlanRepository) × (claim_available_runs batch_id clock s
            ≡ (ok claimed, s'))
          × (s'.batches ≡ s.batches)
          × IsKeyed s'.run_store
          × (fresh batch.run_ids s' + length claimed ≡ fresh batch.run_ids s))
unfolding claim_available_runs
claim_available_runs-cases batch_id clock s batch wf found distinct =
    elim (Stored-all_locked batch.run_ids s wf) [
      | inr (x, e) ↦ inl (x, rw (found, e) refl)
      | inl (rs, e, stored) ↦
          let n = batch.max_parallel - count_if (λ (r : RunRecord). occupied_state r.state) rs in
          let (ids, s', done, more, size, frame, left, each) =
            claims n batch.run_ids rs clock s stored distinct in
          let (keyed, kept) = claim_each-keeps rs n clock s wf in
          inr (
            ids,
            s',
            rw (found, e) done,
            sym (
                  ap (λ (t : TestPlanRepository). t.batches)
                    (ap (λ (x : Result (List Uuid) × TestPlanRepository). x.1) done))
                ∙ kept,
            subst (λ (x : Result (List Uuid) × TestPlanRepository). IsKeyed x.1.run_store) done
                keyed,
            left,
          )
    ]
