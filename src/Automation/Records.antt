-- ===== src/Automation/Records.antt =====
-- services/api/automation_domain.py: the record of a script and its state machine.
use smarttest_platform.Base.{ℕ, ◌+◌, Result, ok, err, bind}
use smarttest_platform.Base.Exec.{invalid_asset_transition}
use smarttest_platform.Base.Text.{Text}
use smarttest_platform.Protocol.{Uuid, Time, Engine}

pub data AutomationScriptStatus : Type 0 where
  draft active archived : AutomationScriptStatus

-- An archived script may become active again, but is not modified while it stays archived.
unfoldable pub next_script_status :
    AutomationScriptStatus → AutomationScriptStatus → Result AutomationScriptStatus
next_script_status AutomationScriptStatus.draft AutomationScriptStatus.draft =
    ok AutomationScriptStatus.draft
next_script_status AutomationScriptStatus.active AutomationScriptStatus.active =
    ok AutomationScriptStatus.active
next_script_status AutomationScriptStatus.draft AutomationScriptStatus.active =
    ok AutomationScriptStatus.active
next_script_status AutomationScriptStatus.active AutomationScriptStatus.archived =
    ok AutomationScriptStatus.archived
next_script_status AutomationScriptStatus.archived AutomationScriptStatus.active =
    ok AutomationScriptStatus.active
next_script_status _ _ = err invalid_asset_transition

pub record AutomationScriptRecord : Type 0 where
  pub id : Uuid
  pub project_id : Uuid
  pub name : Text
  pub description : Text
  pub engine : Engine
  pub entrypoint : Text
  pub source_ref : Text
  pub content_digest : Text
  pub timeout_seconds : ℕ
  pub status : AutomationScriptStatus
  pub revision : ℕ
  pub state_version : ℕ
  pub created_at : Time
  pub updated_at : Time

-- AutomationScriptRecord.update
abbrev pub updated_script :
    AutomationScriptRecord
    → Text
    → Text
    → Text
    → Text
    → Text
    → ℕ
    → AutomationScriptStatus
    → Time
    → Result AutomationScriptRecord
updated_script r name description entrypoint source_ref content_digest timeout_seconds status now =
    bind (next_script_status r.status status) (λ next. ok (record r {
      name = name;
      description = description;
      entrypoint = entrypoint;
      source_ref = source_ref;
      content_digest = content_digest;
      timeout_seconds = timeout_seconds;
      status = next;
      revision = r.revision + 1;
      state_version = r.state_version + 1;
      updated_at = now;
    }))

pub record TestCaseScriptLinkRecord : Type 0 where
  pub test_case_id : Uuid
  pub script_id : Uuid
  pub created_at : Time
