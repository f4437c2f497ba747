-- ===== src/Tests/Store.antt =====
-- A repository in use: a run is created, queued and dispatched, an attempt begins.
use smarttest_platform.Base.Int.{pos, ℤ}
use smarttest_platform.Base.{
  nat_eq, ◌≡◌, refl, some, none, ok, err, true, false, [], List, ◌≢◌, idempotency_conflict, Option,
  Result, clash, Error,
}
use smarttest_platform.Base.Text.{Text, text, strip, lstrip, text_beq, text_beq_iff}
use smarttest_platform.Repository.State.{
  Clock, RunRepository, new_repository, get_locked, get_attempt_locked,
}
use smarttest_platform.Repository.Calls.{
  Calls, Call, after, reachable-WellFormed, Calls-Evolves, IsFresh, call-Writes,
}
use smarttest_platform.Repository.Writes.{Writes}
use smarttest_platform.Repository.WellFormed.{WellFormed, new_repository-WellFormed}
use smarttest_platform.Repository.History.{Evolves}
use smarttest_platform.Protocol.{EventEnvelope, Engine, EventType, Time, Uuid}
use smarttest_platform.Domain.Records.{
  EventRecord, run_with_state, attempt_with_state, claimed, RunRecord, AttemptRecord, new_attempt,
  lost,
}
use smarttest_platform.Repository.Events.{append_event}
use smarttest_platform.Base.Dict.{lookup, insert}
use smarttest_platform.Repository.Runs.{
  create_or_get, fingerprint, canonical_request, normal_key, insert_new, create_locked, transition,
}
use smarttest_platform.Repository.Attempts.{begin_attempt, or_default}
use smarttest_platform.Domain.State.{transition_run, RunState, transition_attempt, AttemptState}
use smarttest_platform.Repository.Idempotency.{
  append_event_again, create_or_get_again, create_or_get_conflict,
}
use smarttest_platform.Repository.Leases.{expire_attempt_leases, sweep, has_expired, expire_one}
use smarttest_platform.Repository.Expiry.{expire_attempt_leases_complete}
use smarttest_platform.Repository.Begin.{Begun, begin_attempt_exclusive}

abbrev pub sha : Text → Text
sha t = t

abbrev pub clock : Clock
clock n = n

abbrev key : Text
key = text "key"

abbrev request : Call
request = Call.create Engine.http (text "{}") (some key) 7 clock

abbrev pub created : RunRepository
created = after sha request new_repository

abbrev pub queued : RunRepository
queued = after sha (Call.move_run 7 RunState.queued clock) created

abbrev pub dispatching : RunRepository
dispatching = after sha (Call.move_run 7 RunState.dispatching clock) queued

abbrev pub begun : RunRepository
begun = after sha (Call.begin 7 9 (text "runner") (pos 60) clock) dispatching

IsFresh-run : IsFresh sha request new_repository
unfolding new_repository lookup
IsFresh-run = refl

creates_run : Calls sha new_repository created
creates_run = Calls.next Calls.here request IsFresh-run

dispatches : Calls sha new_repository dispatching
dispatches =
    Calls.next (Calls.next creates_run (Call.move_run 7 RunState.queued clock) tt)
      (Call.move_run 7 RunState.dispatching clock) tt

pub dispatching-WellFormed : WellFormed dispatching
dispatching-WellFormed = reachable-WellFormed sha dispatching dispatches

pub begins : Calls sha new_repository begun
begins = Calls.next dispatches (Call.begin 7 9 (text "runner") (pos 60) clock) tt

call-Writes_example : Writes new_repository (after sha request new_repository)
call-Writes_example = call-Writes sha new_repository request new_repository-WellFormed IsFresh-run

reachable-WellFormed_example : WellFormed begun
reachable-WellFormed_example = reachable-WellFormed sha begun begins

begun-WellFormed : WellFormed begun
begun-WellFormed = reachable-WellFormed sha begun begins

Calls-Evolves_example : Evolves new_repository begun
Calls-Evolves_example = Calls-Evolves sha new_repository begun new_repository-WellFormed begins

abbrev event : EventEnvelope
event = record {
  run_id = 7;
  attempt_id = 9;
  engine = Engine.http;
  event_id = 21;
  seq = 1;
  occurred_at = 5;
  type = EventType.started;
  payload = text "{}";
}

abbrev appended : RunRepository
appended = (append_event event begun).1

abbrev stored_event : EventRecord
stored_event = record {
  cursor = 1;
  event_id = 21;
  run_id = 7;
  attempt_id = 9;
  engine = Engine.http;
  seq = 1;
  occurred_at = 5;
  type = EventType.started;
  payload = text "{}";
}

event_accepted : (append_event event begun).0 ≡ ok stored_event
unfolding append_event get_locked get_attempt_locked after create_or_get fingerprint
    canonical_request normal_key insert_new create_locked transition begin_attempt run_with_state
    transition_run attempt_with_state transition_attempt claimed lookup insert strip lstrip
    new_repository
event_accepted = refl

appended-WellFormed : WellFormed appended
unfolding after
appended-WellFormed = reachable-WellFormed sha appended (Calls.next begins (Call.append event) tt)

append_event_again_example : append_event event appended ≡ (ok stored_event, appended)
append_event_again_example =
    append_event_again sha begun appended event stored_event appended-WellFormed event_accepted
      Calls.here

-- The run that the request makes.
abbrev pub made : RunRecord
made = record {
  id = 7;
  engine = Engine.http;
  parameters = text "{}";
  state = RunState.created;
  created_at = 0;
  updated_at = 0;
  state_version = 0;
}

request_made :
    (create_or_get sha Engine.http (text "{}") (some key) 7 clock new_repository).0
    ≡ ok (made, false)
unfolding create_or_get fingerprint canonical_request normal_key insert_new create_locked lookup
    insert strip lstrip new_repository
request_made = refl

key_named : normal_key (some key) ≡ some key
unfolding normal_key strip lstrip
key_named = refl

abbrev once : RunRepository
once = (create_or_get sha Engine.http (text "{}") (some key) 7 clock new_repository).1

no_run : lookup 7 new_repository.runs ≡ none
unfolding lookup new_repository
no_run = refl

create_or_get_again_example :
    (r' : RunRecord) × (create_or_get sha Engine.http (text "{}") (some key) 8 clock once
      ≡ (ok (r', true), once))
    × (lookup 7 once.runs ≡ some r')
create_or_get_again_example =
    create_or_get_again sha new_repository once Engine.http (text "{}") (some key) key 7 clock made
      false new_repository-WellFormed no_run key_named request_made Calls.here Engine.http
      (text "{}") (some key) 8 clock key_named refl

differ :
    text_beq (fingerprint sha Engine.pytest (text "{}")) (fingerprint sha Engine.http (text "{}"))
    ≡ false
unfolding text_beq fingerprint canonical_request
differ = refl

other_request : fingerprint sha Engine.pytest (text "{}") ≢ fingerprint sha Engine.http (text "{}")
unfolding fingerprint canonical_request
other_request h = absurd (
    clash
      {b = text_beq (fingerprint sha Engine.pytest (text "{}"))
        (fingerprint sha Engine.http (text "{}"))}
      ((text_beq_iff _ _).1 h) differ)

create_or_get_conflict_example :
    create_or_get sha Engine.pytest (text "{}") (some key) 8 clock once
    ≡ (err idempotency_conflict, once)
create_or_get_conflict_example =
    create_or_get_conflict sha new_repository once Engine.http (text "{}") (some key) key 7 clock
      made false new_repository-WellFormed no_run key_named request_made Calls.here Engine.pytest
      (text "{}") (some key) 8 clock key_named other_request

-- The attempt after its lease of 60 seconds, and the sweep that finds it.
abbrev late : Option Time
late = some 100000000

-- What a call returns, where it returns.
abbrev pub from_ok {ℓ} : {A : Type ℓ} → A → Result A → A
from_ok d (ok a) = a
from_ok d (err e) = d

abbrev pub from_some {ℓ} : {A : Type ℓ} → A → Option A → A
from_some d (some a) = a
from_some d none = d

abbrev pub no_attempt : AttemptRecord
no_attempt = new_attempt 0 0 AttemptState.pending 0

abbrev swept : RunRepository
swept = (expire_attempt_leases late clock begun).1

abbrev lost_attempts : List AttemptRecord
lost_attempts = from_ok [] (expire_attempt_leases late clock begun).0

sweep_returns : (expire_attempt_leases late clock begun).0 ≡ ok lost_attempts
unfolding expire_attempt_leases sweep expire_one lost get_locked get_attempt_locked after
    create_or_get fingerprint canonical_request normal_key insert_new create_locked transition
    begin_attempt run_with_state transition_run attempt_with_state transition_attempt claimed lookup
    insert strip lstrip new_repository
sweep_returns = refl

abbrev swept_attempt : AttemptRecord
swept_attempt = from_some no_attempt (lookup 9 swept.attempts)

swept_found : lookup 9 swept.attempts ≡ some swept_attempt
unfolding expire_attempt_leases sweep expire_one lost get_locked get_attempt_locked after
    create_or_get fingerprint canonical_request normal_key insert_new create_locked transition
    begin_attempt run_with_state transition_run attempt_with_state transition_attempt claimed lookup
    insert strip lstrip new_repository
swept_found = refl

expire_attempt_leases_complete_example :
    has_expired swept_attempt (or_default late (clock 0)) ≡ false
expire_attempt_leases_complete_example =
    expire_attempt_leases_complete begun late clock lost_attempts begun-WellFormed sweep_returns 9
      swept_attempt swept_found

-- The dispatched run begins its attempt.
abbrev begun_pair : RunRecord × AttemptRecord
begun_pair =
    from_ok (made, no_attempt) (begin_attempt 7 9 (text "runner") (pos 60) clock dispatching).0

begin_returns :
    (begin_attempt 7 9 (text "runner") (pos 60) clock dispatching).0
    ≡ ok (begun_pair.0, begun_pair.1)
unfolding get_locked get_attempt_locked after create_or_get fingerprint canonical_request normal_key
    insert_new create_locked transition begin_attempt run_with_state transition_run
    attempt_with_state transition_attempt claimed lookup insert strip lstrip new_repository
begin_returns = refl

begin_attempt_exclusive_example :
    Begun
      (begin_attempt 7 9 (text "runner") (pos 60) clock dispatching).1
      7
      9
      (text "runner")
      (pos 60)
      clock
      begun_pair.0
      begun_pair.1
    × ((j' : Uuid) (runner' : Text) (n' : ℤ) (c' : Clock)
        → (e : Error) × (begin_attempt 7 j' runner' n' c'
              (begin_attempt 7 9 (text "runner") (pos 60) clock dispatching).1
            ≡ (err e, (begin_attempt 7 9 (text "runner") (pos 60) clock dispatching).1)))
begin_attempt_exclusive_example =
    begin_attempt_exclusive dispatching 7 9 (text "runner") (pos 60) clock begun_pair.0 begun_pair.1
      begin_returns
