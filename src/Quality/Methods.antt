-- ===== src/Quality/Methods.antt =====
-- services/api/quality_repository.py.
use smarttest_platform.Base.{
  ℕ, ◌∷◌, [], List, ◌++◌, Bool, true, false, not, Option, none, some, Result, ok, err, Action, pure,
  lift, gets, modify, raise_if, or_raise, ◌>>=◌, ◌>>◌, if◌then◌else◌, ◌==◌, nat_eq, pair_eq, leb,
  keep,
}
use smarttest_platform.Base.Exec.{
  requirement_not_found, test_case_not_found, asset_version_conflict, trace_link_conflict,
  key_error, bind,
}
use smarttest_platform.Base.Dict.{Dict, lookup, insert, values}
use smarttest_platform.Base.Sort.{sorted}
use smarttest_platform.Base.Text.{Text}
use smarttest_platform.Protocol.{Uuid, Time}
use smarttest_platform.Quality.Records.{
  RequirementRecord, TestCaseRecord, RequirementStatus, TestCasePriority, TraceLinkRecord,
  updated_requirement, CaseStepRecord, TestCaseStatus, TestCaseSource, updated_test_case,
}

pub record QualityRepository : Type 0 where
  pub requirements : Dict Uuid RequirementRecord
  pub requirement_revisions : Dict Uuid (List RequirementRecord)
  pub test_cases : Dict Uuid TestCaseRecord
  pub test_case_revisions : Dict Uuid (List TestCaseRecord)
  -- (requirement id, test case id) ↦ link
  pub links : Dict (Uuid × Uuid) TraceLinkRecord

abbrev pub QualityMethod {ℓ} : Type ℓ → Type ℓ
QualityMethod A = Action QualityRepository A

-- self._requirements[id] = record
abbrev pub put_requirement : Uuid → RequirementRecord → QualityRepository → QualityRepository
put_requirement id r s = record s { requirements = insert id r s.requirements }

abbrev pub put_requirement_revisions :
    Uuid → List RequirementRecord → QualityRepository → QualityRepository
put_requirement_revisions id rs s = record s {
  requirement_revisions = insert id rs s.requirement_revisions;
}

abbrev pub put_test_case : Uuid → TestCaseRecord → QualityRepository → QualityRepository
put_test_case id r s = record s { test_cases = insert id r s.test_cases }

abbrev pub put_test_case_revisions :
    Uuid → List TestCaseRecord → QualityRepository → QualityRepository
put_test_case_revisions id rs s = record s {
  test_case_revisions = insert id rs s.test_case_revisions;
}

-- `uuid` is the fresh identifier, `now` the reading of the clock.
unfoldable pub create_requirement :
    Uuid → Text → Text → Uuid → Time → QualityMethod RequirementRecord
create_requirement project_id title description uuid now = do
  let r : RequirementRecord = record {
    id = uuid;
    project_id = project_id;
    title = title;
    description = description;
    status = RequirementStatus.draft;
    revision = 1;
    state_version = 0;
    created_at = now;
    updated_at = now;
  }
  modify (put_requirement uuid r)
  modify (put_requirement_revisions uuid (r ∷ []))
  pure r

unfoldable pub get_requirement : Uuid → QualityMethod RequirementRecord
get_requirement requirement_id s =
    or_raise (lookup requirement_id s.requirements) requirement_not_found s

-- the filter by project, when one is given
abbrev in_project : Option Uuid → Uuid → Bool
in_project none id = true
in_project (some project_id) id = id == project_id

unfoldable pub list_requirements : Option Uuid → QualityMethod (List RequirementRecord)
list_requirements project_id s = (
  ok (
      sorted (λ (a : RequirementRecord) (b : RequirementRecord). leb a.created_at b.created_at)
        (keep (λ (r : RequirementRecord). in_project project_id r.project_id)
          (values s.requirements))),
  s,
)

-- `_check_version`
abbrev pub check_version : ℕ → ℕ → QualityMethod (Unit {0})
check_version current expected = raise_if (not (current == expected)) asset_version_conflict

unfoldable pub update_requirement :
    Uuid → Text → Text → RequirementStatus → ℕ → Time → QualityMethod RequirementRecord
unfolding get_requirement
update_requirement requirement_id title description status expected_version now = do
  current ← get_requirement requirement_id
  check_version current.state_version expected_version
  updated ← lift (updated_requirement current title description status now)
  modify (put_requirement requirement_id updated)
  revisions ← gets (λ (s : QualityRepository). lookup requirement_id s.requirement_revisions)
  saved ← or_raise revisions key_error
  modify (put_requirement_revisions requirement_id (saved ++ (updated ∷ [])))
  pure updated

unfoldable pub list_requirement_revisions : Uuid → QualityMethod (List RequirementRecord)
list_requirement_revisions requirement_id = do
  get_requirement requirement_id >>= λ r. pure tt
  revisions ← gets (λ (s : QualityRepository). lookup requirement_id s.requirement_revisions)
  or_raise revisions key_error

unfoldable pub create_test_case :
    Uuid
    → Text
    → Text
    → Text
    → TestCasePriority
    → List CaseStepRecord
    → TestCaseSource
    → Uuid
    → Time
    → QualityMethod TestCaseRecord
create_test_case project_id title description preconditions priority steps source uuid now = do
  let r : TestCaseRecord = record {
    id = uuid;
    project_id = project_id;
    title = title;
    description = description;
    preconditions = preconditions;
    priority = priority;
    status = TestCaseStatus.draft;
    source = source;
    steps = steps;
    revision = 1;
    state_version = 0;
    created_at = now;
    updated_at = now;
  }
  modify (put_test_case uuid r)
  modify (put_test_case_revisions uuid (r ∷ []))
  pure r

unfoldable pub get_test_case : Uuid → QualityMethod TestCaseRecord
get_test_case test_case_id s = or_raise (lookup test_case_id s.test_cases) test_case_not_found s

abbrev case_order : TestCaseRecord → TestCaseRecord → Bool
case_order a b = leb a.created_at b.created_at

unfoldable pub list_test_cases : Option Uuid → QualityMethod (List TestCaseRecord)
list_test_cases project_id s = (
  ok (
      sorted case_order
        (keep (λ (r : TestCaseRecord). in_project project_id r.project_id) (values s.test_cases))),
  s,
)

unfoldable pub update_test_case :
    Uuid
    → ℕ
    → Text
    → Text
    → Text
    → TestCasePriority
    → TestCaseStatus
    → List CaseStepRecord
    → Time
    → QualityMethod TestCaseRecord
unfolding get_test_case
update_test_case test_case_id expected_version title description preconditions priority status steps
      now =
    do
      current ← get_test_case test_case_id
      check_version current.state_version expected_version
      updated ←
          lift (updated_test_case current title description preconditions priority status steps now)
      modify (put_test_case test_case_id updated)
      revisions ← gets (λ (s : QualityRepository). lookup test_case_id s.test_case_revisions)
      saved ← or_raise revisions key_error
      modify (put_test_case_revisions test_case_id (saved ++ (updated ∷ [])))
      pure updated

unfoldable pub list_test_case_revisions : Uuid → QualityMethod (List TestCaseRecord)
list_test_case_revisions test_case_id = do
  get_test_case test_case_id >>= λ r. pure tt
  revisions ← gets (λ (s : QualityRepository). lookup test_case_id s.test_case_revisions)
  or_raise revisions key_error

-- the new link
abbrev add_trace_link : Uuid → Uuid → Time → QualityMethod (TraceLinkRecord × Bool)
add_trace_link requirement_id test_case_id now = do
  let link : TraceLinkRecord = record {
    requirement_id = requirement_id;
    test_case_id = test_case_id;
    created_at = now;
  }
  modify (λ (s : QualityRepository). record s {
    links = insert (requirement_id, test_case_id) link s.links;
  })
  pure (link, false)

unfoldable pub link_requirement_test_case :
    Uuid → Uuid → Time → QualityMethod (TraceLinkRecord × Bool)
unfolding get_requirement get_test_case
link_requirement_test_case requirement_id test_case_id now = do
  requirement ← get_requirement requirement_id
  test_case ← get_test_case test_case_id
  raise_if (not (requirement.project_id == test_case.project_id)) trace_link_conflict
  link ← gets (λ (s : QualityRepository). lookup (requirement_id, test_case_id) s.links)
  elim link [
    | none ↦ add_trace_link requirement_id test_case_id now
    | some found ↦ pure (found, true)
  ]

-- `[d[k] for k in ks]`, which may raise KeyError
unfoldable pub all_found : Dict Uuid TestCaseRecord → List Uuid → Result (List TestCaseRecord)
all_found d [] = ok []
all_found d (k ∷ ks) =
    let rest = all_found d ks in
    elim (lookup k d) [ none ↦ err key_error | some r ↦ bind rest (λ rs. ok (r ∷ rs)) ]

-- the test cases of the keys with this requirement
unfoldable pub linked_cases : Uuid → Dict (Uuid × Uuid) TraceLinkRecord → List Uuid
linked_cases requirement_id [] = []
linked_cases requirement_id (((r, c), link) ∷ links) =
    let rest = linked_cases requirement_id links in if r == requirement_id then c ∷ rest else rest

unfoldable pub list_requirement_test_cases : Uuid → QualityMethod (List TestCaseRecord)
list_requirement_test_cases requirement_id = do
  get_requirement requirement_id >>= λ r. pure tt
  ids ← gets (λ (s : QualityRepository). linked_cases requirement_id s.links)
  cases ← gets (λ (s : QualityRepository). s.test_cases)
  records ← lift (all_found cases ids)
  pure (sorted case_order records)
