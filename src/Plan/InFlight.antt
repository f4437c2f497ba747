-- ===== src/Plan/InFlight.antt =====
-- The runs of a batch that are in flight or not queued yet, of services/api/test_plan_repository.py.
use smarttest_platform.Base.{
  ℕ, ◌∷◌, [], List, Bool, false, Option, none, some, ◌≡◌, refl, ap, inl, inr, ◌==◌, nat_eq,
  count_if, ◌∙◌, sym,
}
use smarttest_platform.Base.Dict.{lookup, lookup-insert, found_after_insert}
use smarttest_platform.Protocol.{Uuid}
use smarttest_platform.Domain.Records.{RunRecord}
use smarttest_platform.Plan.Methods.{TestPlanRepository}
use smarttest_platform.Plan.Batches.{occupied_state, store_run}
use smarttest_platform.Domain.State.{run_is, RunState}
use smarttest_platform.Repository.State.{put_run, RunRepository}

-- The listed runs are stored under their identifiers.
abbrev pub Stored : List Uuid → List RunRecord → TestPlanRepository → Type 0
Stored [] [] s = Unit
Stored (id ∷ ids) (r ∷ rs) s = (lookup id s.run_store.runs ≡ some r) × (r.id ≡ id) × Stored ids rs s
Stored _ _ s = ⊥

-- An identifier is none of the list.
abbrev pub Absent : Uuid → List Uuid → Type 0
Absent id [] = Unit
Absent id (j ∷ ids) = ((id == j) ≡ false) × Absent id ids

abbrev pub AllDistinct : List Uuid → Type 0
AllDistinct [] = Unit
AllDistinct (id ∷ ids) = Absent id ids × AllDistinct ids

abbrev pub occupies : Option RunRecord → Bool
occupies none = false
occupies (some r) = occupied_state r.state

-- The runs of a batch that are in flight.
unfoldable pub occupied : List Uuid → TestPlanRepository → ℕ
occupied ids s = count_if (λ (id : Uuid). occupies (lookup id s.run_store.runs)) ids

pub Stored-store_run :
    (k : Uuid) (r : RunRecord) (ids : List Uuid) (rs : List RunRecord) (s : TestPlanRepository)
    → Absent k ids
    → Stored ids rs s
    → Stored ids rs (store_run k r s)
Stored-store_run k r [] [] s a h = tt
Stored-store_run k r [] (q ∷ rs) s a h = absurd h
Stored-store_run k r (id ∷ ids) [] s a h = absurd h
Stored-store_run k r (id ∷ ids) (q ∷ rs) s a h =
    (rw (lookup-insert, a.0) (h.0), h.1, Stored-store_run k r ids rs s a.1 h.2)

pub occupied-store_run :
    (k : Uuid) (r : RunRecord) (ids : List Uuid) (s : TestPlanRepository)
    → Absent k ids
    → occupied ids (store_run k r s) ≡ occupied ids s
unfolding occupied
occupied-store_run k r [] s a = refl
occupied-store_run k r (id ∷ ids) s a =
    rw (lookup-insert, a.0, occupied-store_run k r ids s a.1) refl

-- Each run stands under its identifier.
abbrev pub IsKeyed : RunRepository → Type 0
IsKeyed s = (k : Uuid) (r : RunRecord) → lookup k s.runs ≡ some r → r.id ≡ k

pub IsKeyed-put :
    (id : Uuid) (r : RunRecord) (s : RunRepository)
    → IsKeyed s
    → r.id ≡ id
    → IsKeyed (put_run id r s)
IsKeyed-put id r s h same k q found = elim (found_after_insert id k r q s.runs found) [
  | inl (here, is_q) ↦ sym (ap (λ (x : RunRecord). x.id) is_q) ∙ same ∙ here
  | inr (other, before) ↦ h k q before
]

abbrev pub fresh_run : Option RunRecord → Bool
fresh_run none = false
fresh_run (some r) = run_is r.state RunState.created

-- The runs of a batch that are not queued yet.
unfoldable pub fresh : List Uuid → TestPlanRepository → ℕ
fresh ids s = count_if (λ (id : Uuid). fresh_run (lookup id s.run_store.runs)) ids

pub fresh-store_run :
    (k : Uuid) (r : RunRecord) (ids : List Uuid) (s : TestPlanRepository)
    → Absent k ids
    → fresh ids (store_run k r s) ≡ fresh ids s
unfolding fresh
fresh-store_run k r [] s a = refl
fresh-store_run k r (id ∷ ids) s a = rw (lookup-insert, a.0, fresh-store_run k r ids s a.1) refl
