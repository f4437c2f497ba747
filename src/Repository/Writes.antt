-- ===== src/Repository/Writes.antt =====
-- The abstract view of services/api/repository.py: the writes that a store of runs, attempts,
-- events and artifacts admits. A run or an attempt is only replaced by its next version, an event
-- or an artifact is only added, and an identifier or a sequence number is taken once.
use smarttest_platform.Base.{◌≡◌, none, some, nat_eq, pair_eq, is_some, true}
use smarttest_platform.Base.Dict.{lookup, insert}
use smarttest_platform.Base.Text.{Text, text_eq}
use smarttest_platform.Protocol.{Uuid, EventEnvelope}
use smarttest_platform.Domain.{RunRecord, AttemptRecord, ArtifactRecord}
use smarttest_platform.Domain.Lifecycle.{RunStep, AttemptStep}
use smarttest_platform.Repository.State.{RunRepository, put_run, put_attempt}
use smarttest_platform.Repository.Events.{new_event, put_event}

abbrev pub put_key : Text → Text → Uuid → RunRepository → RunRepository
put_key key print uuid s = record s { idempotency = insert key (print, uuid) s.idempotency }

abbrev pub put_artifact : ArtifactRecord → RunRepository → RunRepository
put_artifact added s = record s { artifacts = insert added.id added s.artifacts }

pub data Write : RunRepository → RunRepository → Type 0 where
  add_run :
      (s : RunRepository) (r : RunRecord) → lookup r.id s.runs ≡ none → Write s (put_run r.id r s)
  add_key :
      (s : RunRepository) (key print : Text) (k : Uuid)
      → lookup key s.idempotency ≡ none
      → is_some (lookup k s.runs) ≡ true
      → Write s (put_key key print k s)
  move_run :
      (s : RunRepository) (k : Uuid) (r r' : RunRecord)
      → lookup k s.runs ≡ some r
      → RunStep r r'
      → Write s (put_run k r' s)
  add_attempt :
      (s : RunRepository) (k : Uuid) (a : AttemptRecord)
      → a.id ≡ k
      → lookup k s.attempts ≡ none
      → is_some (lookup a.run_id s.runs) ≡ true
      → Write s (put_attempt k a s)
  move_attempt :
      (s : RunRepository) (k : Uuid) (a a' : AttemptRecord)
      → lookup k s.attempts ≡ some a
      → AttemptStep a a'
      → Write s (put_attempt k a' s)
  add_event :
      (s : RunRepository) (event : EventEnvelope) (a : AttemptRecord)
      → lookup event.attempt_id s.attempts ≡ some a
      → a.run_id ≡ event.run_id
      → lookup event.event_id s.events ≡ none
      → lookup (event.attempt_id, event.seq) s.event_sequences ≡ none
      → Write s (put_event event (new_event s.next_cursor event) s)
  add_artifact :
      (s : RunRepository) (added : ArtifactRecord) (a : AttemptRecord)
      → lookup added.attempt_id s.attempts ≡ some a
      → a.run_id ≡ added.run_id
      → lookup added.id s.artifacts ≡ none
      → Write s (put_artifact added s)

-- Any number of writes, one after the other.
pub data Writes (s : RunRepository) : RunRepository → Type 0 where
  here : Writes s s
  next : {t u : RunRepository} → Writes s t → Write t u → Writes s u

pub Writes-trans : {s t u : RunRepository} → Writes s t → Writes t u → Writes s u
Writes-trans w here = w
Writes-trans w (next v x) = next (Writes-trans w v) x

pub one-Write : {s t : RunRepository} → Write s t → Writes s t
one-Write w = next here w
