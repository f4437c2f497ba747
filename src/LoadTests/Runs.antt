-- ===== src/LoadTests/Runs.antt =====
-- The runs of services/api/load_test_repository.py: `_active_run` and the calls that write.
use smarttest_platform.Base.{
  ℕ, ◌∷◌, [], List, Bool, true, not, ◌&&◌, Option, none, some, Result, ◌≡◌, sym, ap, ◌∙◌,
  Option-cases, Bool-cases, Result-cases, arith, inl, inr, ◌==◌, ==_iff, nat_eq, pair_eq,
}
use smarttest_platform.Base.Text.{Text, text_eq}
use smarttest_platform.Base.Tests.{clash}
use smarttest_platform.Base.Dict.{
  Dict, lookup, insert, Distinct, Distinct-insert, Distinct-keep, lookup-keep, keep_values,
  found_after_insert, first_where-none,
}
use smarttest_platform.Base.Names.{other_owner}
use smarttest_platform.Protocol.{Uuid, Time, Json}
use smarttest_platform.LoadTests.Records.{
  LoadTestRunRecord, LoadTestRunStatus, LoadTestTarget, is_running,
}
use smarttest_platform.LoadTests.Methods.{
  LoadTestRepository, LoadTestSettings, GivenResponse, create_load_test, update_load_test,
  delete_load_test, create_run, add_run_responses, update_run, recover_running_runs, fail_runs,
  running_ids, active_run, is_active, get_load_test, get_run, ended_run, check_settings,
}

-- No two running runs are of one load test.
abbrev pub OneActive : Dict Uuid LoadTestRunRecord → Type 0
OneActive d =
    Distinct d
    × ((j k : Uuid) (q r : LoadTestRunRecord)
        → lookup j d ≡ some q
        → lookup k d ≡ some r
        → is_running q.status ≡ true
        → is_running r.status ≡ true
        → q.load_test_id ≡ r.load_test_id
        → j ≡ k)

-- A run is written where no other one of its load test is running.
OneActive-insert :
    (id : Uuid) (r : LoadTestRunRecord) (d : Dict Uuid LoadTestRunRecord)
    → OneActive d
    → ((k : Uuid) (q : LoadTestRunRecord)
        → lookup k d ≡ some q
        → is_running q.status ≡ true
        → is_running r.status ≡ true
        → q.load_test_id ≡ r.load_test_id
        → k ≡ id)
    → OneActive (insert id r d)
OneActive-insert id r d h only = (
  Distinct-insert id r d h.0,
  λ j k p q found_p found_q run_p run_q same. elim (found_after_insert id j r p d found_p) [
    | inl (at_j, is_p) ↦ elim (found_after_insert id k r q d found_q) [
      | inl (at_k, is_q) ↦ sym at_j ∙ at_k
      | inr (other, before) ↦
          sym at_j
          ∙ sym (only k q before run_q (state r p is_p ∙ run_p) (sym same ∙ sym (test r p is_p)))
    ]
    | inr (other_j, before_p) ↦ elim (found_after_insert id k r q d found_q) [
      | inl (at_k, is_q) ↦
          only j p before_p run_p (state r q is_q ∙ run_q) (same ∙ sym (test r q is_q)) ∙ at_k
      | inr (other_k, before_q) ↦ h.1 j k p q before_p before_q run_p run_q same
    ]
  ],
)
  where
    state : (a b : LoadTestRunRecord) → a ≡ b → is_running a.status ≡ is_running b.status
    state a b e = ap (λ (x : LoadTestRunRecord). is_running x.status) e

    test : (a b : LoadTestRunRecord) → a ≡ b → a.load_test_id ≡ b.load_test_id
    test a b e = ap (λ (x : LoadTestRunRecord). x.load_test_id) e

OneActive-keep :
    (test : LoadTestRunRecord → Bool) (d : Dict Uuid LoadTestRunRecord)
    → OneActive d
    → OneActive (keep_values test d)
OneActive-keep test d h = (
  Distinct-keep test d h.0,
  λ j k q r found_q found_r.
      h.1 j k q r (lookup-keep test j q d h.0 found_q) (lookup-keep test k r d h.0 found_r),
)

-- The failed runs of a recovery.
OneActive-fail :
    (message : Text) (now : Time) (ids : List Uuid) (d : Dict Uuid LoadTestRunRecord)
    → OneActive d
    → OneActive (fail_runs message now ids d)
unfolding fail_runs
OneActive-fail message now [] d h = h
OneActive-fail message now (id ∷ ids) d h = elim (Option-cases (lookup id d)) [
  | inl e ↦ rw e (OneActive-fail message now ids d h)
  | inr (r, e) ↦
      let failed = ended_run r LoadTestRunStatus.failed r.metrics (some message) (some now) in
      rw e (
        OneActive-fail message now ids (insert id failed d)
          (OneActive-insert id failed d h (λ k q found run_q run_r same. cc)))
]

-- A load test without an active run has no running one.
none_active :
    (id : Uuid) (s : LoadTestRepository) (k : Uuid) (q : LoadTestRunRecord)
    → active_run id s ≡ none
    → lookup k s.runs ≡ some q
    → is_running q.status ≡ true
    → q.load_test_id ≡ id
    → ⊥
unfolding active_run
none_active id s k q none_of found run same =
    clash (both (is_running q.status) run same)
      (first_where-none (is_active id) k q s.runs none_of found)
  where
    both : (b : Bool) → b ≡ true → q.load_test_id ≡ id → ((q.load_test_id == id) && b) ≡ true
    both b e f = ground (arith, ==_iff q.load_test_id id)

module _ (validate_target : Json → Result LoadTestTarget)
    (bounded_targets : List LoadTestTarget → Result (List LoadTestTarget))
    (bounded_json : Json → Result Json) (empty_metrics : List Text → Json) where
  pub create_load_test-runs :
      (project_id : Uuid) (settings : LoadTestSettings) (uuid : Uuid) (now : Time)
      (s : LoadTestRepository)
      → (create_load_test validate_target bounded_targets bounded_json empty_metrics project_id
          settings uuid now s).1.runs
        ≡ s.runs
  unfolding create_load_test
  create_load_test-runs project_id settings uuid now s =
      elim (Result-cases
        (check_settings validate_target bounded_targets bounded_json empty_metrics settings)) [
          | inr (x, e) ↦ rw e
          | inl (checked, e) ↦
              elim (Option-cases (lookup (project_id, checked.name) s.load_test_names)) [
                | inl f ↦ rw (e, f)
                | inr (owner, f) ↦ rw (e, f)
              ]
        ]

  pub update_load_test-runs :
      (id : Uuid) (settings : LoadTestSettings) (version : ℕ) (now : Time) (s : LoadTestRepository)
      → (update_load_test validate_target bounded_targets bounded_json empty_metrics id settings
          version now s).1.runs
        ≡ s.runs
  unfolding update_load_test get_load_test
  update_load_test-runs id settings version now s =
      elim (Result-cases
        (check_settings validate_target bounded_targets bounded_json empty_metrics settings)) [
          | inr (x, e) ↦ rw e
          | inl (checked, e) ↦ elim (Option-cases (lookup id s.definitions)) [
            | inl f ↦ rw (e, f)
            | inr (r, f) ↦ elim (Bool-cases (r.state_version == version)) [
              | inr v ↦ rw (e, f, v)
              | inl v ↦
                  elim (Bool-cases
                    (other_owner (lookup (r.project_id, checked.name) s.load_test_names) id)) [
                      | inl o ↦ rw (e, f, v, o)
                      | inr o ↦ rw (e, f, v, o)
                    ]
            ]
          ]
        ]

  pub create_run-OneActive :
      (id uuid : Uuid) (now : Time) (s : LoadTestRepository)
      → OneActive s.runs
      → OneActive
          (create_run validate_target bounded_targets bounded_json empty_metrics id uuid now
            s).1.runs
  unfolding create_run get_load_test
  create_run-OneActive id uuid now s h = elim (Option-cases (lookup id s.definitions)) [
    | inl e ↦ rw e h
    | inr (r, e) ↦ elim (Option-cases (active_run id s)) [
      | inr (q, f) ↦ rw (e, f) h
      | inl f ↦
          rw (e, f)
            (OneActive-insert uuid _ s.runs h
              (λ k q found run_q run_r same. absurd (none_active id s k q f found run_q same)))
    ]
  ]

pub delete_load_test-OneActive :
    (id : Uuid) (s : LoadTestRepository)
    → OneActive s.runs
    → OneActive (delete_load_test id s).1.runs
unfolding delete_load_test get_load_test
delete_load_test-OneActive id s h = elim (Option-cases (lookup id s.definitions)) [
  | inl e ↦ rw e h
  | inr (r, e) ↦ elim (Option-cases (active_run id s)) [
    | inr (q, f) ↦ rw (e, f) h
    | inl f ↦
        rw (e, f) (OneActive-keep (λ (r : LoadTestRunRecord). not (r.load_test_id == id)) s.runs h)
  ]
]

pub add_run_responses-runs :
    (id : Uuid) (given : List GivenResponse) (uuids : ℕ → Uuid) (now : Time)
    (s : LoadTestRepository)
    → (add_run_responses id given uuids now s).1.runs ≡ s.runs
unfolding add_run_responses get_run
add_run_responses-runs id given uuids now s = elim (Option-cases (lookup id s.runs)) [
  | inl e ↦ rw e
  | inr (r, e) ↦ rw e
]

pub update_run-OneActive :
    (id : Uuid) (status : LoadTestRunStatus) (metrics : Json) (message : Option Text)
    (finished : Option Time) (s : LoadTestRepository)
    → OneActive s.runs
    → OneActive (update_run id status metrics message finished s).1.runs
unfolding update_run get_run
update_run-OneActive id status metrics message finished s h =
    elim (Option-cases (lookup id s.runs)) [
      | inl e ↦ rw e h
      | inr (r, e) ↦ elim (Bool-cases (is_running r.status)) [
        | inr f ↦ rw (e, f) h
        | inl f ↦
            rw (e, f)
              (OneActive-insert id (ended_run r status metrics message finished) s.runs h
                (λ k q found run_q run_r same. h.1 k id q r found e run_q f same))
      ]
    ]

pub recover_running_runs-OneActive :
    (message : Text) (now : Time) (s : LoadTestRepository)
    → OneActive s.runs
    → OneActive (recover_running_runs message now s).1.runs
unfolding recover_running_runs
recover_running_runs-OneActive message now s h =
    OneActive-fail message now (running_ids s.runs) s.runs h
