-- ===== src/Plan/Claiming.antt =====
-- The loop of `claim_available_runs` of services/api/test_plan_repository.py, run by run.
use smarttest_platform.Base.{
  ℕ, zero, suc, ◌+◌, ◌-◌, ◌∷◌, [], List, Bool, true, false, some, ok, ◌≡◌, refl, ap, Bool-cases,
  arith, ◌⊎◌, inl, inr, ◌==◌, nat_eq, count_if, length, min, if◌then◌else◌, ◌∙◌, Option, ==_iff,
  elem,
}
use smarttest_platform.Base.Dict.{lookup, lookup-insert, lookup-insert_self}
use smarttest_platform.Protocol.{Uuid, Time}
use smarttest_platform.Domain.Records.{RunRecord, run_with_state}
use smarttest_platform.Plan.Methods.{TestPlanRepository}
use smarttest_platform.Plan.Batches.{occupied_state, store_run, claim_each}
use smarttest_platform.Domain.State.{run_is, RunState, transition_run}
use smarttest_platform.Repository.State.{Clock}
use mathlib.Core.Path.{subst}
use smarttest_platform.Plan.InFlight.{
  Stored, Absent, AllDistinct, occupies, occupied, Stored-store_run, occupied-store_run, fresh_run,
  fresh, fresh-store_run,
}

pub created_count : List RunRecord → ℕ
created_count rs = count_if (λ (r : RunRecord). run_is r.state RunState.created) rs

state_created : (st : RunState) → run_is st RunState.created ≡ true → st ≡ RunState.created
state_created RunState.created h = refl
state_created _ h = cc

-- Each claimed run goes from CREATED to QUEUED.
pub queued :
    (r : RunRecord) (now : Time)
    → run_is r.state RunState.created ≡ true
    → (r' : RunRecord) × (run_with_state r RunState.queued now ≡ ok r')
      × (occupied_state r'.state ≡ true)
      × (occupied_state r.state ≡ false)
      × (run_is r'.state RunState.created ≡ false)
      × (r'.id ≡ r.id)
      × (r'.state ≡ RunState.queued)
unfolding run_with_state transition_run
queued r now h = rw (state_created r.state h) (_, refl, refl, refl, refl, refl, refl)

-- What a claim does to one run: of a run of the batch that it returns it has made a QUEUED run
-- from a CREATED one, and any other run it has left.
abbrev pub Turn : Uuid → List Uuid → List Uuid → Option RunRecord → Option RunRecord → Type 0
Turn k ids claimed before after =
    ((r : RunRecord) × (r' : RunRecord) × (elem k claimed ≡ true)
      × (elem k ids ≡ true)
      × (before ≡ some r)
      × (r.state ≡ RunState.created)
      × (after ≡ some r')
      × (r'.state ≡ RunState.queued))
    ⊎ ((elem k claimed ≡ false) × (after ≡ before))

Turn-skip :
    (k id : Uuid) (ids claimed : List Uuid) (before after : Option RunRecord)
    → Turn k ids claimed before after
    → Turn k (id ∷ ids) claimed before after
Turn-skip k id ids claimed before after (inl (r, r', listed, in_batch, was, old, is, new)) =
    inl (r, r', listed, ground arith, was, old, is, new)
Turn-skip k id ids claimed before after (inr kept) = inr kept

Turn-pass :
    (k id j : Uuid) (ids claimed : List Uuid) (before after : Option RunRecord)
    → (k == id) ≡ false
    → j ≡ id
    → Turn k ids claimed before after
    → Turn k (id ∷ ids) (j ∷ claimed) before after
Turn-pass k id j ids claimed before after other same
      (inl (r, r', listed, in_batch, was, old, is, new)) =
    inl (r, r', ground arith, ground arith, was, old, is, new)
Turn-pass k id j ids claimed before after other same (inr (absent, kept)) =
    inr (rw (same, other) absent, kept)

-- What the loop does to the runs of which it has read the records.
abbrev pub Claims : ℕ → List Uuid → List RunRecord → Clock → TestPlanRepository → Type 0
Claims n ids rs clock s =
    (claimed : List Uuid) × (s' : TestPlanRepository) × (claim_each rs n clock s ≡ (ok claimed, s'))
    × (occupied ids s' ≡ occupied ids s + length claimed)
    × (length claimed ≡ min n (created_count rs))
    × ((k : Uuid) → Absent k ids → lookup k s'.run_store.runs ≡ lookup k s.run_store.runs)
    × (fresh ids s' + length claimed ≡ fresh ids s)
    × ((k : Uuid) → Turn k ids claimed (lookup k s.run_store.runs) (lookup k s'.run_store.runs))

stored_run :
    (id : Uuid) (r r' : RunRecord) (s : TestPlanRepository)
    → r.id ≡ id
    → lookup id (store_run r.id r' s).run_store.runs ≡ some r'
stored_run id r r' s e = rw e (lookup-insert_self id r' s.run_store.runs)

eq_swap : (k id : ℕ) → (k == id) ≡ false → (id == k) ≡ false
eq_swap k id h = ground arith

other_run :
    (k id : Uuid) (r r' : RunRecord) (s : TestPlanRepository)
    → r.id ≡ id
    → (k == id) ≡ false
    → lookup k (store_run r.id r' s).run_store.runs ≡ lookup k s.run_store.runs
other_run k id r r' s e other = rw e (rw lookup-insert (rw (eq_swap k id other) refl))

claim_none :
    (rs : List RunRecord) (clock : Clock) (s : TestPlanRepository)
    → claim_each rs 0 clock s ≡ (ok [], s)
unfolding claim_each
claim_none [] clock s = refl
claim_none (r ∷ rs) clock s = refl

claim_empty :
    (n : ℕ) (clock : Clock) (s : TestPlanRepository) → claim_each [] (suc n) clock s ≡ (ok [], s)
unfolding claim_each
claim_empty n clock s = refl

min_nothing : (n : ℕ) → 0 ≡ min (suc n) (created_count [])
unfolding created_count
min_nothing n = ground arith

claim_skip :
    (n : ℕ) (r : RunRecord) (rs : List RunRecord) (clock : Clock) (s : TestPlanRepository)
    → run_is r.state RunState.created ≡ false
    → claim_each (r ∷ rs) (suc n) clock s ≡ claim_each rs (suc n) clock s
unfolding claim_each
claim_skip n r rs clock s e = rw e refl

pub minus_one : (n : ℕ) → suc n - 1 ≡ n
minus_one n = omega arith

claim_take :
    (n : ℕ) (r r' : RunRecord) (rs : List RunRecord) (clock : Clock) (s s' : TestPlanRepository)
    (claimed : List Uuid)
    → run_is r.state RunState.created ≡ true
    → run_with_state r RunState.queued (clock 0) ≡ ok r'
    → claim_each rs n (λ i. clock (suc i)) (store_run r.id r' s) ≡ (ok claimed, s')
    → claim_each (r ∷ rs) (suc n) clock s ≡ (ok (r.id ∷ claimed), s')
unfolding claim_each
claim_take n r r' rs clock s s' claimed e up done = rw e (rw up (rw (minus_one n) (rw done refl)))

occupied_cons :
    (id : Uuid) (ids : List Uuid) (s : TestPlanRepository) (b : Bool)
    → occupies (lookup id s.run_store.runs) ≡ b
    → occupied (id ∷ ids) s ≡ (if b then suc (occupied ids s) else occupied ids s)
unfolding occupied
occupied_cons id ids s b e = rw e refl

fresh_cons :
    (id : Uuid) (ids : List Uuid) (s : TestPlanRepository) (b : Bool)
    → fresh_run (lookup id s.run_store.runs) ≡ b
    → fresh (id ∷ ids) s ≡ (if b then suc (fresh ids s) else fresh ids s)
unfolding fresh
fresh_cons id ids s b e = rw e refl

created_cons :
    (r : RunRecord) (rs : List RunRecord) (b : Bool)
    → run_is r.state RunState.created ≡ b
    → created_count (r ∷ rs) ≡ (if b then suc (created_count rs) else created_count rs)
unfolding created_count
created_cons r rs b e = rw e refl

pub claims :
    (n : ℕ) (ids : List Uuid) (rs : List RunRecord) (clock : Clock) (s : TestPlanRepository)
    → Stored ids rs s
    → AllDistinct ids
    → Claims n ids rs clock s
claims n [] (r ∷ rs) clock s h d = absurd h
claims n (id ∷ ids) [] clock s h d = absurd h
claims zero ids rs clock s h d = (
  [],
  s,
  claim_none rs clock s,
  ground arith,
  ground arith,
  λ k a. refl,
  ground arith,
  λ k. inr (refl, refl),
)
claims (suc n) [] [] clock s h d = (
  [],
  s,
  claim_empty n clock s,
  ground arith,
  min_nothing n,
  λ k a. refl,
  ground arith,
  λ k. inr (refl, refl),
)
claims (suc n) (id ∷ ids) (r ∷ rs) clock s h d =
    elim (Bool-cases (run_is r.state RunState.created)) [
      | inr e ↦
          let (claimed, s', done, more, size, frame, left, each) =
            claims (suc n) ids rs clock s h.2 d.1 in
          (
            claimed,
            s',
            claim_skip n r rs clock s e ∙ done,
            ground (
              arith,
              more,
              occupied_cons id ids s (occupies (lookup id s.run_store.runs)) refl,
              occupied_cons id ids s' (occupies (lookup id s.run_store.runs))
                  (ap occupies (frame id d.0)),
            ),
            ground (arith, size, created_cons r rs false e),
            λ k a. frame k a.1,
            ground (
              arith,
              left,
              fresh_cons id ids s (fresh_run (lookup id s.run_store.runs)) refl,
              fresh_cons id ids s' (fresh_run (lookup id s.run_store.runs))
                  (ap fresh_run (frame id d.0)),
            ),
            λ k. Turn-skip k id ids claimed _ _ (each k),
          )
      | inl e ↦
          let (r', up, busy, idle, past, same, waits) = queued r (clock 0) e in
          let (claimed, s', done, more, size, frame, left, each) =
            claims n ids rs (λ i. clock (suc i)) (store_run r.id r' s)
              (Stored-store_run r.id r' ids rs s (rw h.1 d.0) h.2) d.1 in
          let here = frame id d.0 ∙ stored_run id r r' s h.1 in
          (
            r.id ∷ claimed,
            s',
            claim_take n r r' rs clock s s' claimed e up done,
            omega (
              arith,
              more,
              occupied-store_run r.id r' ids s (rw h.1 d.0),
              occupied_cons id ids s false (ap occupies h.0 ∙ idle),
              occupied_cons id ids s' true (ap occupies here ∙ busy),
            ),
            omega (arith, size, created_cons r rs true e),
            λ k a. frame k a.1 ∙ other_run k id r r' s h.1 a.0,
            omega (
              arith,
              left,
              fresh-store_run r.id r' ids s (rw h.1 d.0),
              fresh_cons id ids s true (ap fresh_run h.0 ∙ e),
              fresh_cons id ids s' false (ap fresh_run here ∙ past),
            ),
            λ k. elim (Bool-cases (k == id)) [
              | inl is_id ↦
                  let at : k ≡ id = (==_iff k id).0 is_id in
                  inl (
                    r,
                    r',
                    ap (λ j. elem k (j ∷ claimed)) h.1 ∙ rw is_id refl,
                    rw is_id refl,
                    ap (λ j. lookup j s.run_store.runs) at ∙ h.0,
                    state_created r.state e,
                    ap (λ j. lookup j s'.run_store.runs) at ∙ here,
                    waits,
                  )
              | inr other ↦ Turn-pass k id r.id ids claimed _ _ other h.1 (
                  subst (λ o. Turn k ids claimed o (lookup k s'.run_store.runs))
                    (other_run k id r r' s h.1 other) (each k))
            ],
          )
    ]
