-- ===== src/Tests/Revisions.antt =====
-- Test assets with revisions in use.
use smarttest_platform.Base.{◌≡◌, refl, ok, err, [], ◌∷◌, List, nat_eq, asset_version_conflict}
use smarttest_platform.Base.Dict.{lookup, insert}
use smarttest_platform.Quality.History.{
  IsWellFormed, Call, run_calls, quality_calls-WellFormed, update_test_case_stale,
}
use smarttest_platform.Quality.Methods.{
  QualityRepository, update_test_case, create_test_case, get_test_case,
}
use smarttest_platform.Base.Text.{text}
use smarttest_platform.Quality.Records.{
  TestCaseRecord, TestCasePriority, TestCaseSource, TestCaseStatus, next_test_case_status,
}

abbrev no_assets : QualityRepository
no_assets = record {
  requirements = [];
  requirement_revisions = [];
  test_cases = [];
  test_case_revisions = [];
  links = [];
}

no_assets-IsWellFormed : IsWellFormed no_assets
unfolding lookup
no_assets-IsWellFormed = (λ k r h. cc, λ k r h. cc)

abbrev asset_calls : List Call
asset_calls =
    Call.creates_test_case 2 (text "login") [] [] TestCasePriority.high [] TestCaseSource.manual 5
      10
    ∷ Call.updates_test_case 5 0 (text "log in") [] [] TestCasePriority.high TestCaseStatus.ready []
        11
    ∷ []

quality_calls-WellFormed_example : IsWellFormed (run_calls asset_calls no_assets)
quality_calls-WellFormed_example =
    quality_calls-WellFormed asset_calls no_assets no_assets-IsWellFormed

abbrev with_case : QualityRepository
with_case =
    (create_test_case 2 (text "login") [] [] TestCasePriority.high [] TestCaseSource.manual 5 10
      no_assets).1

abbrev ready_case : TestCaseRecord
ready_case = record {
  id = 5;
  project_id = 2;
  title = text "log in";
  description = [];
  preconditions = [];
  priority = TestCasePriority.high;
  status = TestCaseStatus.ready;
  source = TestCaseSource.manual;
  steps = [];
  revision = 2;
  state_version = 1;
  created_at = 10;
  updated_at = 11;
}

case_updated :
    (update_test_case 5 0
      (text "log in")
      []
      []
      TestCasePriority.high
      TestCaseStatus.ready
      []
      11
      with_case).0
    ≡ ok ready_case
unfolding update_test_case create_test_case get_test_case next_test_case_status lookup insert
case_updated = refl

update_test_case_stale_example :
    update_test_case 5 0
      (text "sign in")
      []
      []
      TestCasePriority.low
      TestCaseStatus.ready
      []
      12
      (update_test_case 5 0
        (text "log in")
        []
        []
        TestCasePriority.high
        TestCaseStatus.ready
        []
        11
        with_case).1
    ≡ (
      err asset_version_conflict,
      (update_test_case 5 0
          (text "log in")
          []
          []
          TestCasePriority.high
          TestCaseStatus.ready
          []
          11
          with_case).1,
    )
update_test_case_stale_example =
    update_test_case_stale 5 0 (text "log in") [] [] TestCasePriority.high TestCaseStatus.ready []
      11 (text "sign in") [] [] TestCasePriority.low TestCaseStatus.ready [] 12 with_case ready_case
      case_updated
