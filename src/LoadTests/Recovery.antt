-- ===== src/LoadTests/Recovery.antt =====
-- `recover_running_runs` and the runs that have ended, of services/api/load_test_repository.py.
use smarttest_platform.Base.{
  ◌∷◌, [], List, Bool, true, false, not, Option, none, some, Result, ◌≡◌, refl, sym, ap, ◌∙◌,
  Option-cases, Bool-cases, arith, ◌⊎◌, inl, inr, ◌==◌, ==_iff, nat_eq, elem,
}
use smarttest_platform.Base.Text.{Text}
use smarttest_platform.Base.Tests.{clash, beq_refl}
use smarttest_platform.Base.Dict.{
  Dict, lookup, insert, Distinct, lookup-keep_found, other-keys_where, elem-keys_where,
  found_after_insert, lookup-insert_free, delete, lookup-delete,
}
use smarttest_platform.Base.Names.{lookup-insert_other, other_key, one_value}
use smarttest_platform.Protocol.{Uuid, Time, Json}
use smarttest_platform.LoadTests.Records.{
  LoadTestRunRecord, LoadTestRunStatus, LoadTestTarget, is_running,
}
use smarttest_platform.LoadTests.Methods.{
  LoadTestRepository, delete_load_test, create_run, update_run, recover_running_runs, fail_runs,
  running_ids, active_run, get_load_test, get_run, ended_run,
}
use smarttest_platform.LoadTests.Runs.{
  create_load_test-runs, update_load_test-runs, add_run_responses-runs,
}
use smarttest_platform.LoadTests.Active.{Call, after, IsFreshRun}

-- A run that is running after the loop is none of those that it fails.
running_after :
    (message : Text) (now : Time) (ids : List Uuid) (k : Uuid) (r : LoadTestRunRecord)
    (d : Dict Uuid LoadTestRunRecord)
    → lookup k (fail_runs message now ids d) ≡ some r
    → is_running r.status ≡ true
    → (elem k ids ≡ false) × (lookup k d ≡ some r)
unfolding fail_runs
running_after message now [] k r d found run = (refl, found)
running_after message now (id ∷ ids) k r d found run = elim (Option-cases (lookup id d)) [
  | inl e ↦
      let (absent, before) = running_after message now ids k r d (step_none e found) run in
      (not_in (λ same. cc (e, before, ap (λ i. lookup i d) same)) absent, before)
  | inr (q, e) ↦
      let failed = ended_run q LoadTestRunStatus.failed q.metrics (some message) (some now) in
      let (absent, before) =
        running_after message now ids k r (insert id failed d) (step_some q e found) run in
      elim (found_after_insert id k failed r d before) [
        | inl (same, is_r) ↦
            absurd (clash run (sym (ap (λ (x : LoadTestRunRecord). is_running x.status) is_r)))
        | inr (other, kept) ↦ (not_in (λ same. clash ((==_iff id k).1 same) other) absent, kept)
      ]
]
  where
    step_none :
        lookup id d ≡ none
        → lookup k (fail_runs message now (id ∷ ids) d) ≡ some r
        → lookup k (fail_runs message now ids d) ≡ some r
    step_none e = rw e (λ h. h)

    step_some :
        (q : LoadTestRunRecord)
        → lookup id d ≡ some q
        → lookup k (fail_runs message now (id ∷ ids) d) ≡ some r
        → lookup k (
            fail_runs message now ids (
              insert id
                (ended_run q LoadTestRunStatus.failed q.metrics (some message) (some now))
                d))
          ≡ some r
    step_some q e = rw e (λ h. h)

    not_in : (id ≡ k → ⊥) → elem k ids ≡ false → elem k (id ∷ ids) ≡ false
    not_in differ absent = ground (arith, ==_iff k id)

-- A recovery leaves no run running.
pub recover_running_runs-None :
    (message : Text) (now : Time) (s : LoadTestRepository) (k : Uuid) (r : LoadTestRunRecord)
    → lookup k (recover_running_runs message now s).1.runs ≡ some r
    → is_running r.status ≡ false
unfolding recover_running_runs
recover_running_runs-None message now s k r found = elim (Bool-cases (is_running r.status)) [
  | inr e ↦ e
  | inl e ↦
      let (absent, before) = running_after message now (running_ids s.runs) k r s.runs found e in
      clash (elem-keys_where (λ (x : LoadTestRunRecord). is_running x.status) k r s.runs before e)
        absent
]

-- A recovery keeps a run that has ended.
fail_runs-kept :
    (message : Text) (now : Time) (ids : List Uuid) (k : Uuid) (r : LoadTestRunRecord)
    (d : Dict Uuid LoadTestRunRecord)
    → elem k ids ≡ false
    → lookup k d ≡ some r
    → lookup k (fail_runs message now ids d) ≡ some r
unfolding fail_runs
fail_runs-kept message now [] k r d absent found = found
fail_runs-kept message now (id ∷ ids) k r d absent found = elim (Option-cases (lookup id d)) [
  | inl e ↦ rw e (fail_runs-kept message now ids k r d (ground arith) found)
  | inr (q, e) ↦
      let failed = ended_run q LoadTestRunStatus.failed q.metrics (some message) (some now) in
      rw e (
        fail_runs-kept message now ids k r (insert id failed d) (ground arith)
          (lookup-insert_other id k failed d (ground (arith, ==_iff k id, ==_iff id k)) ∙ found))
]

recover_running_runs-kept :
    (message : Text) (now : Time) (s : LoadTestRepository) (k : Uuid) (r : LoadTestRunRecord)
    → Distinct s.runs
    → lookup k s.runs ≡ some r
    → is_running r.status ≡ false
    → lookup k (recover_running_runs message now s).1.runs ≡ some r
unfolding recover_running_runs
recover_running_runs-kept message now s k r h found ended =
    fail_runs-kept message now (running_ids s.runs) k r s.runs
      (other-keys_where (λ (x : LoadTestRunRecord). is_running x.status) k r s.runs h found ended)
      found

update_run-kept :
    (id : Uuid) (status : LoadTestRunStatus) (metrics : Json) (message : Option Text)
    (finished : Option Time) (s : LoadTestRepository) (k : Uuid) (r : LoadTestRunRecord)
    → lookup k s.runs ≡ some r
    → is_running r.status ≡ false
    → lookup k (update_run id status metrics message finished s).1.runs ≡ some r
unfolding update_run get_run
update_run-kept id status metrics message finished s k r found ended =
    elim (Option-cases (lookup id s.runs)) [
      | inl e ↦ rw e found
      | inr (q, e) ↦ elim (Bool-cases (is_running q.status)) [
        | inr f ↦ rw (e, f) found
        | inl f ↦
            rw (e, f)
              (lookup-insert_other id k (ended_run q status metrics message finished) s.runs
                  (other_key id k (λ same. clash f (state q (one_value s.runs same e found))))
                ∙ found)
      ]
    ]
  where
    state : (q : LoadTestRunRecord) → q ≡ r → is_running q.status ≡ false
    state q same = ap (λ (x : LoadTestRunRecord). is_running x.status) same ∙ ended

delete_load_test-kept :
    (id : Uuid) (s : LoadTestRepository) (k : Uuid) (r : LoadTestRunRecord)
    → Distinct s.runs
    → lookup k s.runs ≡ some r
    → (lookup k (delete_load_test id s).1.runs ≡ some r)
      ⊎ (lookup k (delete_load_test id s).1.runs ≡ none)
        × (r.load_test_id ≡ id)
        × (lookup id (delete_load_test id s).1.definitions ≡ none)
unfolding delete_load_test get_load_test
delete_load_test-kept id s k r h found = elim (Option-cases (lookup id s.definitions)) [
  | inl e ↦ rw e (inl found)
  | inr (q, e) ↦ elim (Option-cases (active_run id s)) [
    | inr (a, f) ↦ rw (e, f) (inl found)
    | inl f ↦
        rw (e, f)
          (elim (Bool-cases (not (r.load_test_id == id))) [
            | inl t ↦ inl (lookup-keep_found other k r s.runs h found ∙ rw t refl)
            | inr t ↦ inr (
              lookup-keep_found other k r s.runs h found ∙ rw t refl,
              (==_iff r.load_test_id id).0 (ground arith),
              gone s.definitions,
            )
          ])
  ]
]
  where
    other : LoadTestRunRecord → Bool
    other x = not (x.load_test_id == id)

    gone : {A : Type 0} (d : Dict Uuid A) → lookup id (delete id d) ≡ none
    gone d = rw (lookup-delete, beq_refl id) refl

module _ (validate_target : Json → Result LoadTestTarget)
    (bounded_targets : List LoadTestTarget → Result (List LoadTestTarget))
    (bounded_json : Json → Result Json) (empty_metrics : List Text → Json) where
  create_run-kept :
      (id uuid : Uuid) (now : Time) (s : LoadTestRepository) (k : Uuid) (r : LoadTestRunRecord)
      → lookup uuid s.runs ≡ none
      → lookup k s.runs ≡ some r
      → lookup k
          (create_run validate_target bounded_targets bounded_json empty_metrics id uuid now
            s).1.runs
        ≡ some r
  unfolding create_run get_load_test
  create_run-kept id uuid now s k r fresh found = elim (Option-cases (lookup id s.definitions)) [
    | inl e ↦ rw e found
    | inr (q, e) ↦ elim (Option-cases (active_run id s)) [
      | inr (a, f) ↦ rw (e, f) found
      | inl f ↦ rw (e, f) (lookup-insert_free uuid k _ r s.runs fresh found)
    ]
  ]

  -- A run that has ended, in a repository where no run identifier stands twice: each call that
  -- writes, with a fresh identifier for a new run, leaves the run as it is, or is the call that
  -- deletes its load test, which takes the run and the load test away.
  pub ended_run-kept :
      (c : Call) (s : LoadTestRepository) (k : Uuid) (r : LoadTestRunRecord)
      → Distinct s.runs
      → IsFreshRun c s
      → lookup k s.runs ≡ some r
      → is_running r.status ≡ false
      → (lookup k (after validate_target bounded_targets bounded_json empty_metrics c s).runs
          ≡ some r)
        ⊎ (lookup k (after validate_target bounded_targets bounded_json empty_metrics c s).runs
            ≡ none)
          × (c ≡ Call.deletes_test r.load_test_id)
          × (lookup r.load_test_id
                (after validate_target bounded_targets bounded_json empty_metrics c s).definitions
              ≡ none)
  ended_run-kept (Call.creates_test project_id settings uuid now) s k r h fresh found ended = inl (
      ap (λ d. lookup k d)
        (create_load_test-runs validate_target bounded_targets bounded_json empty_metrics project_id
          settings uuid now s)
      ∙ found)
  ended_run-kept (Call.updates_test id settings version now) s k r h fresh found ended = inl (
      ap (λ d. lookup k d)
        (update_load_test-runs validate_target bounded_targets bounded_json empty_metrics id
          settings version now s)
      ∙ found)
  ended_run-kept (Call.deletes_test id) s k r h fresh found ended =
      elim (delete_load_test-kept id s k r h found) [
        | inl kept ↦ inl kept
        | inr (gone, same, deleted) ↦ inr (gone, ap Call.deletes_test (sym same), rw same deleted)
      ]
  ended_run-kept (Call.creates_run id uuid now) s k r h fresh found ended =
      inl (create_run-kept id uuid now s k r fresh found)
  ended_run-kept (Call.adds_responses id given uuids now) s k r h fresh found ended =
      inl (ap (λ d. lookup k d) (add_run_responses-runs id given uuids now s) ∙ found)
  ended_run-kept (Call.updates_run id status metrics message finished) s k r h fresh found ended =
      inl (update_run-kept id status metrics message finished s k r found ended)
  ended_run-kept (Call.recovers message now) s k r h fresh found ended =
      inl (recover_running_runs-kept message now s k r h found ended)
