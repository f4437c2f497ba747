-- ===== src/Tests/Scripts.antt =====
-- Scripts and a batch of runs.
use smarttest_platform.Base.{◌≡◌, refl, some, ok, [], ◌∷◌, List, arith, nat_eq, ◌≤◌, ◌+◌}
use smarttest_platform.Base.Int.{pos}
use smarttest_platform.Base.Dict.{lookup, insert, Dict}
use smarttest_platform.Automation.History.{IsWellFormed, Call, run_calls, get_revision_number}
use smarttest_platform.Automation.Methods.{
  AutomationRepository, create_script, get_revision, get_script,
}
use smarttest_platform.Base.Text.{text}
use smarttest_platform.Automation.Records.{AutomationScriptRecord, AutomationScriptStatus}
use smarttest_platform.Protocol.{Uuid, Engine}
use smarttest_platform.Plan.Records.{ExecutionBatchRecord}
use smarttest_platform.Plan.Methods.{TestPlanRepository}
use smarttest_platform.Plan.InFlight.{occupied, fresh}
use smarttest_platform.Plan.Claims.{claim_available_runs_bounded}
use smarttest_platform.Plan.Claiming.{Turn}
use smarttest_platform.Plan.Batches.{claim_available_runs, all_locked, claim_each}
use smarttest_platform.Domain.Records.{RunRecord, run_with_state}
use smarttest_platform.Tests.Store.{clock}
use smarttest_platform.Repository.State.{get_locked}
use smarttest_platform.Domain.State.{transition_run, RunState}
use smarttest_platform.Dispatch.{dispatch}
use smarttest_platform.Dispatch.Calm.{dispatch-IsCalm}
use smarttest_platform.Dispatch.Rounds.{Terminates, dispatch_available-Terminates}

abbrev no_scripts : AutomationRepository
no_scripts = record { scripts = []; script_revisions = []; script_links = [] }

no_scripts-IsWellFormed : IsWellFormed no_scripts
unfolding lookup
no_scripts-IsWellFormed = λ k r h. cc

abbrev script_calls : List Call
script_calls =
    Call.creates 2 (text "smoke") [] Engine.pytest (text "t.py") (text "ref") (text "d") 60 5 10
    ∷ []

abbrev script : AutomationScriptRecord
script = record {
  id = 5;
  project_id = 2;
  name = text "smoke";
  description = [];
  engine = Engine.pytest;
  entrypoint = text "t.py";
  source_ref = text "ref";
  content_digest = text "d";
  timeout_seconds = 60;
  status = AutomationScriptStatus.draft;
  revision = 1;
  state_version = 0;
  created_at = 10;
  updated_at = 10;
}

script_found : lookup 5 (run_calls script_calls no_scripts).scripts ≡ some script
unfolding create_script lookup insert
script_found = refl

revision_found : (get_revision 5 (pos 1) (run_calls script_calls no_scripts)).0 ≡ ok script
unfolding create_script get_revision get_script lookup insert
revision_found = refl

get_revision_number_example : pos 1 ≡ pos script.revision
get_revision_number_example =
    get_revision_number script_calls 5 (pos 1) no_scripts script script no_scripts-IsWellFormed
      script_found revision_found

-- Two created runs of a batch of which one may be in flight.
abbrev run_of : Uuid → RunRecord
run_of id = record {
  id = id;
  engine = Engine.pytest;
  parameters = text "{}";
  state = RunState.created;
  created_at = 0;
  updated_at = 0;
  state_version = 0;
}

abbrev batch : ExecutionBatchRecord
batch = record {
  id = 40;
  tenant_id = 1;
  project_id = 2;
  plan_id = 30;
  plan_revision = 2;
  idempotency_key = text "nightly";
  max_parallel = 1;
  run_ids = 7 ∷ 8 ∷ [];
  created_at = 0;
}

abbrev stored_runs : Dict Uuid RunRecord
stored_runs = (7, run_of 7) ∷ (8, run_of 8) ∷ []

abbrev planned : TestPlanRepository
planned = record {
  plans = [];
  plan_revisions = [];
  batches = (40, batch) ∷ [];
  specs_by_run = [];
  batch_keys = [];
  run_store = record {
    runs = stored_runs;
    idempotency = [];
    attempts = [];
    events = [];
    event_sequences = [];
    artifacts = [];
    next_cursor = 1;
  };
}

stored_ids : (k : Uuid) (r : RunRecord) → lookup k stored_runs ≡ some r → r.id ≡ k
unfolding lookup
stored_ids k r h = ground arith

batch_found : lookup 40 planned.batches ≡ some batch
unfolding lookup
batch_found = refl

batch_fits : occupied batch.run_ids planned ≤ 1
unfolding occupied lookup
batch_fits = omega arith

batch_claimed : (claim_available_runs 40 clock planned).0 ≡ ok (7 ∷ [])
unfolding claim_available_runs all_locked get_locked claim_each lookup insert run_with_state
    transition_run
batch_claimed = refl

claim_available_runs_bounded_example :
    (occupied batch.run_ids (claim_available_runs 40 clock planned).1
      ≡ occupied batch.run_ids planned + 1)
    × (occupied batch.run_ids (claim_available_runs 40 clock planned).1 ≤ 1)
    × Turn 7 batch.run_ids
        (7 ∷ [])
        (lookup 7 planned.run_store.runs)
        (lookup 7 (claim_available_runs 40 clock planned).1.run_store.runs)
claim_available_runs_bounded_example =
    claim_available_runs_bounded 40 clock planned batch (7 ∷ []) 7 stored_ids batch_found
      ((refl, tt), (tt, tt)) batch_fits batch_claimed

fresh_two : fresh batch.run_ids planned ≤ 2
unfolding fresh lookup
fresh_two = omega arith

dispatch_available-Terminates_example :
    Terminates dispatch dispatch-IsCalm 2 (λ n m. clock) 40 planned
dispatch_available-Terminates_example =
    dispatch_available-Terminates dispatch dispatch-IsCalm 2 (λ n m. clock) 40 planned batch
      stored_ids batch_found ((refl, tt), (tt, tt)) fresh_two
