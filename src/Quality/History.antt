-- ===== src/Quality/History.antt =====
-- The revisions and versions of services/api/quality_repository.py.
use smarttest_platform.Base.{
  ℕ, ◌+◌, ◌∷◌, [], List, true, false, ok, err, ◌≡◌, refl, Option-cases, Bool-cases, Result-cases,
  arith, inl, inr, ◌==◌, nat_eq, pair_eq, asset_version_conflict,
}
use smarttest_platform.Base.Versions.{IsHistory, IsHistory-put, IsHistory-append}
use smarttest_platform.Base.Dict.{lookup, lookup-insert_self}
use smarttest_platform.Quality.Records.{
  RequirementRecord, TestCaseRecord, RequirementStatus, TestCasePriority, updated_requirement,
  TestCaseStatus, next_requirement_status, CaseStepRecord, updated_test_case, next_test_case_status,
  TestCaseSource,
}
use smarttest_platform.Quality.Methods.{
  QualityRepository, create_requirement, update_requirement, get_requirement, create_test_case,
  update_test_case, link_requirement_test_case, get_test_case,
}
use smarttest_platform.Base.Text.{Text}
use smarttest_platform.Protocol.{Uuid, Time}

-- The revision that an update makes is the next one, and its version is another.
next_requirement :
    (r r' : RequirementRecord) (title description : Text) (status : RequirementStatus) (now : Time)
    → updated_requirement r title description status now ≡ ok r'
    → (r'.revision ≡ r.revision + 1) × (r'.state_version ≡ r.state_version + 1)
next_requirement r r' title description status now =
    elim (Result-cases (next_requirement_status r.status status)) [
      | inl (next, e) ↦ rw e (λ h. (ground arith, ground arith))
      | inr (x, e) ↦ rw e (λ h. cc)
    ]

next_test_case :
    (r r' : TestCaseRecord) (title description preconditions : Text) (priority : TestCasePriority)
    (status : TestCaseStatus) (steps : List CaseStepRecord) (now : Time)
    → updated_test_case r title description preconditions priority status steps now ≡ ok r'
    → (r'.revision ≡ r.revision + 1) × (r'.state_version ≡ r.state_version + 1)
next_test_case r r' title description preconditions priority status steps now =
    elim (Result-cases (next_test_case_status r.status status)) [
      | inl (next, e) ↦ rw e (λ h. (ground arith, ground arith))
      | inr (x, e) ↦ rw e (λ h. cc)
    ]

abbrev pub IsWellFormed : QualityRepository → Type 0
IsWellFormed s =
    IsHistory (λ (r : RequirementRecord). r.revision) s.requirements s.requirement_revisions
    × IsHistory (λ (r : TestCaseRecord). r.revision) s.test_cases s.test_case_revisions

create_requirement-WellFormed :
    (project_id : Uuid) (title description : Text) (uuid : Uuid) (now : Time)
    (s : QualityRepository)
    → IsWellFormed s
    → IsWellFormed (create_requirement project_id title description uuid now s).1
unfolding create_requirement
create_requirement-WellFormed project_id title description uuid now s h =
    (IsHistory-put _ uuid _ [] s.requirements s.requirement_revisions h.0 (refl, tt), h.1)

update_requirement-WellFormed :
    (id : Uuid) (title description : Text) (status : RequirementStatus) (version : ℕ) (now : Time)
    (s : QualityRepository)
    → IsWellFormed s
    → IsWellFormed (update_requirement id title description status version now s).1
unfolding update_requirement get_requirement
update_requirement-WellFormed id title description status version now s h =
    elim (Option-cases (lookup id s.requirements)) [
      | inl e ↦ rw e h
      | inr (r, found) ↦ elim (Bool-cases (r.state_version == version)) [
        | inr e ↦ rw (found, e) h
        | inl e ↦ elim (Result-cases (updated_requirement r title description status now)) [
          | inr (x, u) ↦ rw (found, e, u) h
          | inl (r', u) ↦
              let (older, kept, numbered) = h.0 id r found in
              rw (found, e, u, kept)
                (
                  IsHistory-append _ id r r' older s.requirements s.requirement_revisions h.0
                      numbered (next_requirement r r' title description status now u).0,
                  h.1,
                )
        ]
      ]
    ]

create_test_case-WellFormed :
    (project_id : Uuid) (title description preconditions : Text) (priority : TestCasePriority)
    (steps : List CaseStepRecord) (source : TestCaseSource) (uuid : Uuid) (now : Time)
    (s : QualityRepository)
    → IsWellFormed s
    → IsWellFormed
        (create_test_case project_id title description preconditions priority steps source uuid now
          s).1
unfolding create_test_case
create_test_case-WellFormed project_id title description preconditions priority steps source uuid
      now s h =
    (h.0, IsHistory-put _ uuid _ [] s.test_cases s.test_case_revisions h.1 (refl, tt))

update_test_case-WellFormed :
    (id : Uuid) (version : ℕ) (title description preconditions : Text) (priority : TestCasePriority)
    (status : TestCaseStatus) (steps : List CaseStepRecord) (now : Time) (s : QualityRepository)
    → IsWellFormed s
    → IsWellFormed
        (update_test_case id version title description preconditions priority status steps now s).1
unfolding update_test_case get_test_case
update_test_case-WellFormed id version title description preconditions priority status steps now s
      h =
    elim (Option-cases (lookup id s.test_cases)) [
      | inl e ↦ rw e h
      | inr (r, found) ↦ elim (Bool-cases (r.state_version == version)) [
        | inr e ↦ rw (found, e) h
        | inl e ↦
            elim (Result-cases
              (updated_test_case r title description preconditions priority status steps now)) [
                | inr (x, u) ↦ rw (found, e, u) h
                | inl (r', u) ↦
                    let (older, kept, numbered) = h.1 id r found in
                    rw (found, e, u, kept)
                      (
                        h.0,
                        IsHistory-append _ id r r' older s.test_cases s.test_case_revisions h.1
                            numbered
                            (next_test_case r r' title description preconditions priority status
                              steps now u).0,
                      )
              ]
      ]
    ]

link-WellFormed :
    (requirement_id test_case_id : Uuid) (now : Time) (s : QualityRepository)
    → IsWellFormed s
    → IsWellFormed (link_requirement_test_case requirement_id test_case_id now s).1
unfolding link_requirement_test_case get_requirement get_test_case
link-WellFormed requirement_id test_case_id now s h =
    elim (Option-cases (lookup requirement_id s.requirements)) [
      | inl e ↦ rw e h
      | inr (r, e) ↦ elim (Option-cases (lookup test_case_id s.test_cases)) [
        | inl f ↦ rw (e, f) h
        | inr (c, f) ↦ elim (Bool-cases (r.project_id == c.project_id)) [
          | inr p ↦ rw (e, f, p) h
          | inl p ↦ elim (Option-cases (lookup (requirement_id, test_case_id) s.links)) [
            | inl l ↦ rw (e, f, p, l) h
            | inr (link, l) ↦ rw (e, f, p, l) h
          ]
        ]
      ]
    ]

-- The calls that write.
pub data Call : Type 0 where
  creates_requirement : Uuid → Text → Text → Uuid → Time → Call
  updates_requirement : Uuid → Text → Text → RequirementStatus → ℕ → Time → Call
  creates_test_case :
      Uuid
      → Text
      → Text
      → Text
      → TestCasePriority
      → List CaseStepRecord
      → TestCaseSource
      → Uuid
      → Time
      → Call
  updates_test_case :
      Uuid
      → ℕ
      → Text
      → Text
      → Text
      → TestCasePriority
      → TestCaseStatus
      → List CaseStepRecord
      → Time
      → Call
  links : Uuid → Uuid → Time → Call

abbrev pub after : Call → QualityRepository → QualityRepository
after (Call.creates_requirement p t d u now) s = (create_requirement p t d u now s).1
after (Call.updates_requirement i t d st v now) s = (update_requirement i t d st v now s).1
after (Call.creates_test_case p t d pre pr steps src u now) s =
    (create_test_case p t d pre pr steps src u now s).1
after (Call.updates_test_case i v t d pre pr st steps now) s =
    (update_test_case i v t d pre pr st steps now s).1
after (Call.links r c now) s = (link_requirement_test_case r c now s).1

abbrev pub run_calls : List Call → QualityRepository → QualityRepository
run_calls [] s = s
run_calls (c ∷ cs) s = run_calls cs (after c s)

-- Whatever calls come, on a well-formed repository and whether they succeed or raise: each
-- requirement and each test case has a list of revisions that are numbered 1, 2, 3 and so on and
-- of which the stored record is the last.
pub quality_calls-WellFormed :
    (cs : List Call) (s : QualityRepository) → IsWellFormed s → IsWellFormed (run_calls cs s)
quality_calls-WellFormed [] s h = h
quality_calls-WellFormed (c ∷ cs) s h = quality_calls-WellFormed cs (after c s) (step c)
  where
    step : (c : Call) → IsWellFormed (after c s)
    step (Call.creates_requirement p t d u now) = create_requirement-WellFormed p t d u now s h
    step (Call.updates_requirement i t d st v now) =
        update_requirement-WellFormed i t d st v now s h
    step (Call.creates_test_case p t d pre pr steps src u now) =
        create_test_case-WellFormed p t d pre pr steps src u now s h
    step (Call.updates_test_case i v t d pre pr st steps now) =
        update_test_case-WellFormed i v t d pre pr st steps now s h
    step (Call.links r c now) = link-WellFormed r c now s h

-- Of two updates of a test case from the same version the second is refused: after a successful
-- update every further update that expects the old version raises AssetVersionConflict and writes
-- nothing.
pub update_test_case_stale :
    (id : Uuid) (version : ℕ) (title description preconditions : Text) (priority : TestCasePriority)
    (status : TestCaseStatus) (steps : List CaseStepRecord) (now : Time)
    (title' description' preconditions' : Text) (priority' : TestCasePriority)
    (status' : TestCaseStatus) (steps' : List CaseStepRecord) (now' : Time) (s : QualityRepository)
    (r : TestCaseRecord)
    → (update_test_case id version title description preconditions priority status steps now s).0
      ≡ ok r
    → let s' =
        (update_test_case id version title description preconditions priority status steps now
          s).1 in
      update_test_case id version title' description' preconditions' priority' status' steps' now'
        s'
      ≡ (err asset_version_conflict, s')
unfolding update_test_case get_test_case
update_test_case_stale id version t d pre pr st steps now t' d' pre' pr' st' steps' now' s w =
    elim (Option-cases (lookup id s.test_cases)) [
      | inl e ↦ rw e (λ h. cc)
      | inr (r, found) ↦ elim (Bool-cases (r.state_version == version)) [
        | inr e ↦ rw (found, e) (λ h. cc)
        | inl e ↦ elim (Result-cases (updated_test_case r t d pre pr st steps now)) [
          | inr (x, u) ↦ rw (found, e, u) (λ h. cc)
          | inl (r', u) ↦ elim (Option-cases (lookup id s.test_case_revisions)) [
            | inl l ↦ rw (found, e, u, l) (λ h. cc)
            | inr (old, l) ↦ rw (found, e, u, l, lookup-insert_self, later r r' u e) (λ h. refl)
          ]
        ]
      ]
    ]
  where
    later :
        (r r' : TestCaseRecord)
        → updated_test_case r t d pre pr st steps now ≡ ok r'
        → (r.state_version == version) ≡ true
        → (r'.state_version == version) ≡ false
    later r r' u e = ground (arith, (next_test_case r r' t d pre pr st steps now u).1)
