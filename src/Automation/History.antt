-- ===== src/Automation/History.antt =====
-- The revisions of services/api/automation_repository.py.
use smarttest_platform.Base.{
  ℕ, zero, suc, ◌+◌, ◌∷◌, [], List, ◌++◌, some, Result, ok, ◌≡◌, refl, ap, Option-cases, Bool-cases,
  Result-cases, arith, inl, inr, ◌==◌, nat_eq, pair_eq, get_elem?, ◌||◌, or_raise, script_not_found,
}
use smarttest_platform.Base.Int.{ℤ, pos, negsuc}
use smarttest_platform.Automation.Records.{
  AutomationScriptRecord, AutomationScriptStatus, updated_script, next_script_status,
}
use smarttest_platform.Automation.Methods.{
  AutomationRepository, create_script, update_script, link_test_case, get_revision, get_script,
  nth_revision, case_archived, script_archived,
}
use smarttest_platform.Protocol.{Uuid, Engine, Time}
use smarttest_platform.Base.Text.{Text}
use smarttest_platform.Base.Versions.{
  IsHistory, Numbered, IsHistory-put, IsHistory-append, Numbered-at,
}
use smarttest_platform.Quality.Records.{TestCaseRecord}
use smarttest_platform.Base.Dict.{lookup}

next_script :
    (r r' : AutomationScriptRecord) (name description entrypoint source_ref content_digest : Text)
    (timeout_seconds : ℕ) (status : AutomationScriptStatus) (now : Time)
    → updated_script r name description entrypoint source_ref content_digest timeout_seconds status
        now
      ≡ ok r'
    → r'.revision ≡ r.revision + 1
next_script r r' name description entrypoint source_ref content_digest timeout_seconds status now =
    elim (Result-cases (next_script_status r.status status)) [
      | inl (next, e) ↦ rw e (λ h. ground arith)
      | inr (x, e) ↦ rw e (λ h. cc)
    ]

abbrev pub IsWellFormed : AutomationRepository → Type 0
IsWellFormed s = IsHistory (λ (r : AutomationScriptRecord). r.revision) s.scripts s.script_revisions

create_script-WellFormed :
    (project_id : Uuid) (name description : Text) (engine : Engine)
    (entrypoint source_ref content_digest : Text) (timeout_seconds : ℕ) (uuid : Uuid) (now : Time)
    (s : AutomationRepository)
    → IsWellFormed s
    → IsWellFormed
        (create_script project_id name description engine entrypoint source_ref content_digest
          timeout_seconds uuid now s).1
unfolding create_script
create_script-WellFormed p n d e en so co t uuid now s h =
    IsHistory-put _ uuid _ [] s.scripts s.script_revisions h (refl, tt)

update_script-WellFormed :
    (id : Uuid) (version : ℕ) (name description entrypoint source_ref content_digest : Text)
    (timeout_seconds : ℕ) (status : AutomationScriptStatus) (now : Time) (s : AutomationRepository)
    → IsWellFormed s
    → IsWellFormed
        (update_script id version name description entrypoint source_ref content_digest
          timeout_seconds status now s).1
unfolding update_script get_script
update_script-WellFormed id version n d en so co t st now s h =
    elim (Option-cases (lookup id s.scripts)) [
      | inl e ↦ rw e h
      | inr (r, found) ↦ elim (Bool-cases (r.state_version == version)) [
        | inr e ↦ rw (found, e) h
        | inl e ↦ elim (Result-cases (updated_script r n d en so co t st now)) [
          | inr (x, u) ↦ rw (found, e, u) h
          | inl (r', u) ↦
              let (older, kept, numbered) = h id r found in
              rw (found, e, u, kept)
                (IsHistory-append _ id r r' older s.scripts s.script_revisions h numbered
                  (next_script r r' n d en so co t st now u))
        ]
      ]
    ]

link-WellFormed :
    (test_cases : Uuid → Result TestCaseRecord) (test_case_id script_id : Uuid) (now : Time)
    (s : AutomationRepository)
    → IsWellFormed s
    → IsWellFormed (link_test_case test_cases test_case_id script_id now s).1
unfolding link_test_case get_script
link-WellFormed test_cases test_case_id script_id now s h =
    elim (Result-cases (test_cases test_case_id)) [
      | inr (x, e) ↦ rw e h
      | inl (c, e) ↦ elim (Option-cases (lookup script_id s.scripts)) [
        | inl f ↦ rw (e, f) h
        | inr (r, f) ↦ elim (Bool-cases (c.project_id == r.project_id)) [
          | inr p ↦ rw (e, f, p) h
          | inl p ↦ elim (Option-cases (lookup (test_case_id, script_id) s.script_links)) [
            | inr (link, l) ↦ rw (e, f, p, l) h
            | inl l ↦ elim (Bool-cases (case_archived c.status || script_archived r.status)) [
              | inl a ↦ rw (e, f, p, l, a) h
              | inr a ↦ rw (e, f, p, l, a) h
            ]
          ]
        ]
      ]
    ]

-- The calls that write.
pub data Call : Type 0 where
  creates : Uuid → Text → Text → Engine → Text → Text → Text → ℕ → Uuid → Time → Call
  updates : Uuid → ℕ → Text → Text → Text → Text → Text → ℕ → AutomationScriptStatus → Time → Call
  links : (Uuid → Result TestCaseRecord) → Uuid → Uuid → Time → Call

abbrev pub after : Call → AutomationRepository → AutomationRepository
after (Call.creates p n d e en so co t u now) s = (create_script p n d e en so co t u now s).1
after (Call.updates i v n d en so co t st now) s = (update_script i v n d en so co t st now s).1
after (Call.links cases c k now) s = (link_test_case cases c k now s).1

abbrev pub run_calls : List Call → AutomationRepository → AutomationRepository
run_calls [] s = s
run_calls (c ∷ cs) s = run_calls cs (after c s)

calls-WellFormed :
    (cs : List Call) (s : AutomationRepository) → IsWellFormed s → IsWellFormed (run_calls cs s)
calls-WellFormed [] s h = h
calls-WellFormed (c ∷ cs) s h = calls-WellFormed cs (after c s) (step c)
  where
    step : (c : Call) → IsWellFormed (after c s)
    step (Call.creates p n d e en so co t u now) =
        create_script-WellFormed p n d e en so co t u now s h
    step (Call.updates i v n d en so co t st now) =
        update_script-WellFormed i v n d en so co t st now s h
    step (Call.links cases c k now) = link-WellFormed cases c k now s h

-- Whatever calls on scripts and links come after a well-formed repository, whether they succeed or
-- raise, `get_revision` returns for a stored script the revision of the number that is asked for,
-- or raises: never another revision.
pub get_revision_number :
    (cs : List Call) (id : Uuid) (revision : ℤ) (s : AutomationRepository)
    (current r : AutomationScriptRecord)
    → IsWellFormed s
    → lookup id (run_calls cs s).scripts ≡ some current
    → (get_revision id revision (run_calls cs s)).0 ≡ ok r
    → revision ≡ pos r.revision
unfolding get_revision get_script
get_revision_number cs id revision s current r h found =
    let (older, kept, numbered) = calls-WellFormed cs s h id current found in
    rw (found, kept) (numbered_at revision (older ++ (current ∷ [])) r numbered)
  where
    same : {n : ℕ} (q r : AutomationScriptRecord) → q.revision ≡ 1 + n → q ≡ r → suc n ≡ r.revision
    same q r e k = omega (arith, e, ap (λ (x : AutomationScriptRecord). x.revision) k)

    numbered_at :
        (n : ℤ) (rs : List AutomationScriptRecord) (r : AutomationScriptRecord)
        → Numbered (λ (r : AutomationScriptRecord). r.revision) 1 rs
        → (or_raise (nth_revision rs n) script_not_found (run_calls cs s)).0 ≡ ok r
        → n ≡ pos r.revision
    numbered_at (pos zero) rs r h = λ k. cc
    numbered_at (negsuc n) rs r h = λ k. cc
    numbered_at (pos (suc n)) rs r h = elim (Option-cases (get_elem? rs n)) [
      | inl e ↦ rw e (λ k. cc)
      | inr (q, e) ↦ rw e (λ k. ap pos (same q r (Numbered-at _ 1 n rs q h e) (cc)))
    ]
