-- ===== src/Automation/Methods.antt =====
-- services/api/automation_repository.py. `test_cases` is what TestCaseReader.get_test_case returns
-- at the time of the call.
use smarttest_platform.Base.{
  ℕ, suc, ◌∷◌, [], List, ◌++◌, Bool, true, false, not, ◌||◌, Option, none, some, Result, ok, err,
  Action, pure, lift, gets, modify, raise_if, or_raise, ◌>>=◌, ◌>>◌, if◌then◌else◌, ◌==◌, nat_eq,
  pair_eq, leb, keep, get_elem?, bind,
}
use smarttest_platform.Base.Exec.{
  script_not_found, script_link_conflict, asset_version_conflict, key_error,
}
use smarttest_platform.Base.Dict.{Dict, insert, lookup, values}
use smarttest_platform.Protocol.{Uuid, Time, Engine}
use smarttest_platform.Automation.Records.{
  AutomationScriptRecord, AutomationScriptStatus, TestCaseScriptLinkRecord, updated_script,
}
use smarttest_platform.Base.Int.{ℤ, pos}
use smarttest_platform.Quality.Records.{TestCaseStatus, TestCaseRecord}
use smarttest_platform.Base.Text.{Text}
use smarttest_platform.Base.Sort.{sorted}

pub record AutomationRepository : Type 0 where
  pub scripts : Dict Uuid AutomationScriptRecord
  pub script_revisions : Dict Uuid (List AutomationScriptRecord)
  -- (test case id, script id) ↦ link
  pub script_links : Dict (Uuid × Uuid) TestCaseScriptLinkRecord

abbrev pub ScriptMethod {ℓ} : Type ℓ → Type ℓ
ScriptMethod A = Action AutomationRepository A

abbrev pub put_script : Uuid → AutomationScriptRecord → AutomationRepository → AutomationRepository
put_script id r s = record s { scripts = insert id r s.scripts }

abbrev pub put_script_revisions :
    Uuid → List AutomationScriptRecord → AutomationRepository → AutomationRepository
put_script_revisions id rs s = record s { script_revisions = insert id rs s.script_revisions }

unfoldable pub create_script :
    Uuid
    → Text
    → Text
    → Engine
    → Text
    → Text
    → Text
    → ℕ
    → Uuid
    → Time
    → ScriptMethod AutomationScriptRecord
create_script project_id name description engine entrypoint source_ref content_digest
      timeout_seconds uuid now =
    do
      let r : AutomationScriptRecord = record {
        id = uuid;
        project_id = project_id;
        name = name;
        description = description;
        engine = engine;
        entrypoint = entrypoint;
        source_ref = source_ref;
        content_digest = content_digest;
        timeout_seconds = timeout_seconds;
        status = AutomationScriptStatus.draft;
        revision = 1;
        state_version = 0;
        created_at = now;
        updated_at = now;
      }
      modify (put_script uuid r)
      modify (put_script_revisions uuid (r ∷ []))
      pure r

unfoldable pub get_script : Uuid → ScriptMethod AutomationScriptRecord
get_script script_id s = or_raise (lookup script_id s.scripts) script_not_found s

abbrev script_order : AutomationScriptRecord → AutomationScriptRecord → Bool
script_order a b = leb a.created_at b.created_at

unfoldable pub list_scripts : Uuid → ScriptMethod (List AutomationScriptRecord)
list_scripts project_id s = (
  ok (
      sorted script_order
        (keep (λ (r : AutomationScriptRecord). r.project_id == project_id) (values s.scripts))),
  s,
)

unfoldable pub update_script :
    Uuid
    → ℕ
    → Text
    → Text
    → Text
    → Text
    → Text
    → ℕ
    → AutomationScriptStatus
    → Time
    → ScriptMethod AutomationScriptRecord
update_script script_id expected_version name description entrypoint source_ref content_digest
      timeout_seconds status now =
    do
      current ← get_script script_id
      raise_if (not (current.state_version == expected_version)) asset_version_conflict
      updated ← lift (
          updated_script current name description entrypoint source_ref content_digest
            timeout_seconds status now)
      modify (put_script script_id updated)
      revisions ← gets (λ (s : AutomationRepository). lookup script_id s.script_revisions)
      saved ← or_raise revisions key_error
      modify (put_script_revisions script_id (saved ++ (updated ∷ [])))
      pure updated

unfoldable pub list_revisions : Uuid → ScriptMethod (List AutomationScriptRecord)
list_revisions script_id = do
  get_script script_id >>= λ r. pure tt
  revisions ← gets (λ (s : AutomationRepository). lookup script_id s.script_revisions)
  or_raise revisions key_error

-- `revisions[revision - 1]` under `1 <= revision <= len(revisions)`
abbrev pub nth_revision {ℓ} : {R : Type ℓ} → List R → ℤ → Option R
nth_revision rs (pos (suc n)) = get_elem? rs n
nth_revision rs _ = none

unfoldable pub get_revision : Uuid → ℤ → ScriptMethod AutomationScriptRecord
get_revision script_id revision = do
  get_script script_id >>= λ r. pure tt
  revisions ← gets (λ (s : AutomationRepository). lookup script_id s.script_revisions)
  saved ← or_raise revisions key_error
  or_raise (nth_revision saved revision) script_not_found

-- the new link of `link_test_case`
abbrev add_script_link : Uuid → Uuid → Time → ScriptMethod (TestCaseScriptLinkRecord × Bool)
add_script_link test_case_id script_id now = do
  let link : TestCaseScriptLinkRecord = record {
    test_case_id = test_case_id;
    script_id = script_id;
    created_at = now;
  }
  modify (λ (s : AutomationRepository). record s {
    script_links = insert (test_case_id, script_id) link s.script_links;
  })
  pure (link, false)

-- `_validate_linkable`
abbrev pub case_archived : TestCaseStatus → Bool
case_archived TestCaseStatus.archived = true
case_archived _ = false

abbrev pub script_archived : AutomationScriptStatus → Bool
script_archived AutomationScriptStatus.archived = true
script_archived _ = false

-- `[self._scripts[script_id] for ...]`, which may raise KeyError
unfoldable pub all_scripts :
    Dict Uuid AutomationScriptRecord → List Uuid → Result (List AutomationScriptRecord)
all_scripts d [] = ok []
all_scripts d (k ∷ ks) =
    let rest = all_scripts d ks in
    elim (lookup k d) [ none ↦ err key_error | some r ↦ bind rest (λ rs. ok (r ∷ rs)) ]

-- the scripts of the keys with this test case
unfoldable pub linked_scripts : Uuid → Dict (Uuid × Uuid) TestCaseScriptLinkRecord → List Uuid
linked_scripts test_case_id [] = []
linked_scripts test_case_id (((c, k), link) ∷ links) =
    let rest = linked_scripts test_case_id links in if c == test_case_id then k ∷ rest else rest

module _ (test_cases : Uuid → Result TestCaseRecord) where
  unfoldable pub link_test_case :
      Uuid → Uuid → Time → ScriptMethod (TestCaseScriptLinkRecord × Bool)
  link_test_case test_case_id script_id now = do
    test_case ← lift (test_cases test_case_id)
    script ← get_script script_id
    raise_if (not (test_case.project_id == script.project_id)) script_link_conflict
    link ← gets (λ (s : AutomationRepository). lookup (test_case_id, script_id) s.script_links)
    elim link [
      | some found ↦ pure (found, true)
      | none ↦
          raise_if (case_archived test_case.status || script_archived script.status)
            script_link_conflict
          >> add_script_link test_case_id script_id now
    ]

  unfoldable pub list_test_case_scripts : Uuid → ScriptMethod (List AutomationScriptRecord)
  list_test_case_scripts test_case_id = do
    lift (test_cases test_case_id) >>= λ r. pure tt
    ids ← gets (λ (s : AutomationRepository). linked_scripts test_case_id s.script_links)
    scripts ← gets (λ (s : AutomationRepository). s.scripts)
    records ← lift (all_scripts scripts ids)
    pure (sorted script_order records)
