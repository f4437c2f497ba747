-- ===== src/Quality/Records.antt =====
-- services/api/quality_domain.py: the records of the test assets and their state machines.
use smarttest_platform.Base.{ℕ, ◌+◌, List, Result, ok, err, nat_eq, pair_eq}
use smarttest_platform.Base.Exec.{invalid_asset_transition, bind}
use smarttest_platform.Base.Text.{Text}
use smarttest_platform.Protocol.{Uuid, Time}

pub data RequirementStatus : Type 0 where
  draft active archived : RequirementStatus

pub data TestCaseStatus : Type 0 where
  draft ready archived : TestCaseStatus

pub data TestCasePriority : Type 0 where
  low medium high critical : TestCasePriority

pub data TestCaseSource : Type 0 where
  manual ai : TestCaseSource

-- `_next_status` on REQUIREMENT_TRANSITIONS, which has no entry for ARCHIVED
unfoldable pub next_requirement_status :
    RequirementStatus → RequirementStatus → Result RequirementStatus
next_requirement_status RequirementStatus.draft RequirementStatus.draft = ok RequirementStatus.draft
next_requirement_status RequirementStatus.active RequirementStatus.active =
    ok RequirementStatus.active
next_requirement_status RequirementStatus.draft RequirementStatus.active =
    ok RequirementStatus.active
next_requirement_status RequirementStatus.active RequirementStatus.archived =
    ok RequirementStatus.archived
next_requirement_status _ _ = err invalid_asset_transition

-- `_next_status` on TEST_CASE_TRANSITIONS
unfoldable pub next_test_case_status : TestCaseStatus → TestCaseStatus → Result TestCaseStatus
next_test_case_status TestCaseStatus.draft TestCaseStatus.draft = ok TestCaseStatus.draft
next_test_case_status TestCaseStatus.ready TestCaseStatus.ready = ok TestCaseStatus.ready
next_test_case_status TestCaseStatus.draft TestCaseStatus.ready = ok TestCaseStatus.ready
next_test_case_status TestCaseStatus.ready TestCaseStatus.archived = ok TestCaseStatus.archived
next_test_case_status _ _ = err invalid_asset_transition

pub record CaseStepRecord : Type 0 where
  pub order : ℕ
  pub action : Text
  pub expected_result : Text

pub record RequirementRecord : Type 0 where
  pub id : Uuid
  pub project_id : Uuid
  pub title : Text
  pub description : Text
  pub status : RequirementStatus
  pub revision : ℕ
  pub state_version : ℕ
  pub created_at : Time
  pub updated_at : Time

-- RequirementRecord.update
abbrev pub updated_requirement :
    RequirementRecord → Text → Text → RequirementStatus → Time → Result RequirementRecord
updated_requirement r title description status now =
    bind (next_requirement_status r.status status) (λ next. ok (record r {
      title = title;
      description = description;
      status = next;
      revision = r.revision + 1;
      state_version = r.state_version + 1;
      updated_at = now;
    }))

pub record TestCaseRecord : Type 0 where
  pub id : Uuid
  pub project_id : Uuid
  pub title : Text
  pub description : Text
  pub preconditions : Text
  pub priority : TestCasePriority
  pub status : TestCaseStatus
  pub source : TestCaseSource
  pub steps : List CaseStepRecord
  pub revision : ℕ
  pub state_version : ℕ
  pub created_at : Time
  pub updated_at : Time

-- TestCaseRecord.update
abbrev pub updated_test_case :
    TestCaseRecord
    → Text
    → Text
    → Text
    → TestCasePriority
    → TestCaseStatus
    → List CaseStepRecord
    → Time
    → Result TestCaseRecord
updated_test_case r title description preconditions priority status steps now =
    bind (next_test_case_status r.status status) (λ next. ok (record r {
      title = title;
      description = description;
      preconditions = preconditions;
      priority = priority;
      status = next;
      steps = steps;
      revision = r.revision + 1;
      state_version = r.state_version + 1;
      updated_at = now;
    }))

pub record TraceLinkRecord : Type 0 where
  pub requirement_id : Uuid
  pub test_case_id : Uuid
  pub created_at : Time
