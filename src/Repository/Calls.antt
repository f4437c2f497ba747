-- ===== src/Repository/Calls.antt =====
-- Every call of a public method of services/api/repository.py, and any sequence of calls.
use smarttest_platform.Base.{◌≡◌, nat_eq, Option, none, arith}
use smarttest_platform.Base.Dict.{lookup}
use smarttest_platform.Base.Int.{ℤ}
use smarttest_platform.Base.Text.{Text}
use smarttest_platform.Protocol.{Uuid, Time, Json, Engine, EventEnvelope, ResultEnvelope}
use smarttest_platform.Domain.{RunState, AttemptState, ArtifactRecord}
use smarttest_platform.Repository.State.{Clock, RunRepository, new_repository}
use smarttest_platform.Repository.Runs.{create_or_get, list, get, transition, cancel}
use smarttest_platform.Repository.Attempts.{
  create_attempt, begin_attempt, get_attempt, list_attempts, transition_attempt, claim_attempt,
  renew_attempt_lease, complete_attempt,
}
use smarttest_platform.Repository.Leases.{expire_attempt_leases}
use smarttest_platform.Repository.Events.{append_event, list_events}
use smarttest_platform.Repository.Artifacts.{create_artifact, get_artifact, list_artifacts}
use smarttest_platform.Repository.Writes.{Writes, Writes-trans}
use smarttest_platform.Repository.WellFormed.{
  WellFormed, Writes-WellFormed, new_repository-WellFormed,
}
use smarttest_platform.Repository.History.{Evolves}
use smarttest_platform.Repository.History.Steps.{Writes-Evolves}
use smarttest_platform.Repository.Refinement.RunMethods.{
  transition-Writes, cancel-Writes, create_or_get-Writes,
}
use smarttest_platform.Repository.Refinement.AttemptMethods.{
  create_attempt-Writes, begin_attempt-Writes, transition_attempt-Writes, claim_attempt-Writes,
  renew_attempt_lease-Writes, complete_attempt-Writes,
}
use smarttest_platform.Repository.Refinement.Sweep.{expire_attempt_leases-Writes}
use smarttest_platform.Repository.Refinement.StoreMethods.{
  append_event-Writes, create_artifact-Writes,
}

-- A method with its arguments, the identifier that it draws and its readings of the clock.
pub data Call : Type 0 where
  create : Engine → Json → Option Text → Uuid → Clock → Call
  move_run : Uuid → RunState → Clock → Call
  cancel_run : Uuid → Clock → Call
  new_attempt : Uuid → Option Uuid → Uuid → Clock → Call
  begin : Uuid → Uuid → Text → ℤ → Clock → Call
  move_attempt : Uuid → AttemptState → Clock → Call
  claim : Uuid → Text → ℤ → Option Time → Clock → Call
  renew : Uuid → Text → ℤ → Option Time → Clock → Call
  expire : Option Time → Clock → Call
  complete : Uuid → AttemptState → ResultEnvelope → Clock → Call
  append : EventEnvelope → Call
  add_artifact : ArtifactRecord → Call
  read_runs : Call
  read_run read_attempt read_attempts read_artifact read_artifacts : Uuid → Call
  read_events : Uuid → ℤ → Call

module _ (sha256 : Text → Text) where
  -- The store after a call, whether it returned or raised.
  unfoldable pub after : Call → RunRepository → RunRepository
  after (Call.create engine parameters key uuid c) s =
      (create_or_get sha256 engine parameters key uuid c s).1
  after (Call.move_run k t c) s = (transition k t c s).1
  after (Call.cancel_run k c) s = (cancel k c s).1
  after (Call.new_attempt run_id attempt_id uuid c) s =
      (create_attempt run_id attempt_id uuid c s).1
  after (Call.begin run_id attempt_id runner n c) s =
      (begin_attempt run_id attempt_id runner n c s).1
  after (Call.move_attempt k t c) s = (transition_attempt k t c s).1
  after (Call.claim k runner n now c) s = (claim_attempt k runner n now c s).1
  after (Call.renew k runner n now c) s = (renew_attempt_lease k runner n now c s).1
  after (Call.expire now c) s = (expire_attempt_leases now c s).1
  after (Call.complete k t result c) s = (complete_attempt k t result c s).1
  after (Call.append event) s = (append_event event s).1
  after (Call.add_artifact added) s = (create_artifact added s).1
  after Call.read_runs s = (list s).1
  after (Call.read_run k) s = (get k s).1
  after (Call.read_attempt k) s = (get_attempt k s).1
  after (Call.read_attempts k) s = (list_attempts k s).1
  after (Call.read_artifact k) s = (get_artifact k s).1
  after (Call.read_artifacts k) s = (list_artifacts k s).1
  after (Call.read_events k n) s = (list_events k n s).1

  -- `uuid4` draws an identifier that no run has.
  abbrev pub IsFresh : Call → RunRepository → Type 0
  IsFresh (Call.create engine parameters key uuid c) s = lookup uuid s.runs ≡ none
  IsFresh _ s = Unit

module _ (k : Uuid) (s : RunRepository) where
  get_same : (get k s).1 ≡ s
  unfolding get
  get_same = ground arith

  get_attempt_same : (get_attempt k s).1 ≡ s
  unfolding get_attempt
  get_attempt_same = ground arith

  list_attempts_same : (list_attempts k s).1 ≡ s
  unfolding list_attempts
  list_attempts_same = ground arith

  get_artifact_same : (get_artifact k s).1 ≡ s
  unfolding get_artifact
  get_artifact_same = ground arith

  list_artifacts_same : (list_artifacts k s).1 ≡ s
  unfolding list_artifacts
  list_artifacts_same = ground arith

  list_events_same : (n : ℤ) → (list_events k n s).1 ≡ s
  unfolding list_events
  list_events_same n = ground arith

module _ (sha256 : Text → Text) where
  unchanged : {s t : RunRepository} → t ≡ s → Writes s t
  unchanged e = rw e Writes.here

  -- A call, whether it returns or raises, does to the store of runs nothing but admitted writes.
  pub call-Writes :
      (s : RunRepository) (c : Call)
      → WellFormed s
      → IsFresh sha256 c s
      → Writes s (after sha256 c s)
  unfolding after list
  call-Writes s (Call.create engine parameters key uuid c) w fresh =
      create_or_get-Writes sha256 s engine parameters key uuid c fresh
  call-Writes s (Call.move_run k t c) w fresh = transition-Writes s k t c
  call-Writes s (Call.cancel_run k c) w fresh = cancel-Writes s k c
  call-Writes s (Call.new_attempt run_id attempt_id uuid c) w fresh =
      create_attempt-Writes s run_id attempt_id uuid c
  call-Writes s (Call.begin run_id attempt_id runner n c) w fresh =
      begin_attempt-Writes s run_id attempt_id runner n c
  call-Writes s (Call.move_attempt k t c) w fresh = transition_attempt-Writes s k t c
  call-Writes s (Call.claim k runner n now c) w fresh = claim_attempt-Writes s k runner n now c
  call-Writes s (Call.renew k runner n now c) w fresh =
      renew_attempt_lease-Writes s k runner n now c
  call-Writes s (Call.expire now c) w fresh = expire_attempt_leases-Writes s now c w
  call-Writes s (Call.complete k t result c) w fresh = complete_attempt-Writes s k t result c
  call-Writes s (Call.append event) w fresh = append_event-Writes s event
  call-Writes s (Call.add_artifact added) w fresh = create_artifact-Writes s added
  call-Writes s Call.read_runs w fresh = Writes.here
  call-Writes s (Call.read_run k) w fresh = unchanged (get_same k s)
  call-Writes s (Call.read_attempt k) w fresh = unchanged (get_attempt_same k s)
  call-Writes s (Call.read_attempts k) w fresh = unchanged (list_attempts_same k s)
  call-Writes s (Call.read_artifact k) w fresh = unchanged (get_artifact_same k s)
  call-Writes s (Call.read_artifacts k) w fresh = unchanged (list_artifacts_same k s)
  call-Writes s (Call.read_events k n) w fresh = unchanged (list_events_same k s n)

  -- Any sequence of calls.
  pub data Calls (s : RunRepository) : RunRepository → Type 0 where
    here : Calls s s
    next :
        {t : RunRepository}
        → Calls s t
        → (c : Call) → IsFresh sha256 c t
        → Calls s (after sha256 c t)

  -- The keys, the identifiers and the cross references of a repository agree after every sequence
  -- of calls on a new one: every attempt has its run, every idempotency key its run, every event
  -- and artifact an attempt of its run, no two events share a cursor, and no (attempt, sequence
  -- number) two events.
  pub reachable-WellFormed : (s : RunRepository) → Calls new_repository s → WellFormed s
  reachable-WellFormed s Calls.here = new_repository-WellFormed
  reachable-WellFormed _ (Calls.next {t} run c fresh) =
      let w = reachable-WellFormed t run in Writes-WellFormed (call-Writes t c w fresh) w

  Calls-Writes : {s t : RunRepository} → WellFormed s → Calls s t → Writes s t
  Calls-Writes w Calls.here = Writes.here
  Calls-Writes w (Calls.next {t} run c fresh) =
      let ws = Calls-Writes w run in
      Writes-trans ws (call-Writes t c (Writes-WellFormed ws w) fresh)

  pub Calls-WellFormed : {s t : RunRepository} → WellFormed s → Calls s t → WellFormed t
  Calls-WellFormed w run = Writes-WellFormed (Calls-Writes w run) w

  -- From a repository whose indexes agree, whatever is called, whether it returns or raises: no run,
  -- attempt, event, artifact or key is lost; a run keeps its request, and its record changes only
  -- while the run has not ended and with a larger version; an ended attempt is never changed again;
  -- events, artifacts and keys never change, and a new event has a cursor above all older ones.
  pub Calls-Evolves : (s t : RunRepository) → WellFormed s → Calls s t → Evolves s t
  Calls-Evolves s t w run = Writes-Evolves (Calls-Writes w run)
