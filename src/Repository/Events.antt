-- ===== src/Repository/Events.antt =====
-- The methods of services/api/repository.py on events.
use smarttest_platform.Base.{
  ℕ, ◌+◌, List, Bool, not, ◌&&◌, Option, none, some, pure, raise, raise_if, gets, modify, ◌>>=◌,
  ◌>>◌, nat_eq, pair_eq, is_some, keep, ◌==◌, ltb, leb, if◌then◌else◌,
}
use smarttest_platform.Base.Exec.{event_conflict, value_error}
use smarttest_platform.Base.Dict.{lookup, insert, values}
use smarttest_platform.Base.Int.{ℤ, is_negative, to_nat}
use smarttest_platform.Base.Sort.{sorted}
use smarttest_platform.Base.Text.{text_beq}
use smarttest_platform.Protocol.{Uuid, EventEnvelope, engine_beq, event_type_beq}
use smarttest_platform.Domain.{EventRecord}
use smarttest_platform.Repository.State.{Method, RunRepository, get_locked, get_attempt_locked}

unfoldable pub event_matches : EventRecord → EventEnvelope → Bool
event_matches record' event =
    (record'.run_id == event.run_id)
    && ((record'.attempt_id == event.attempt_id)
        && (engine_beq record'.engine event.engine
            && ((record'.seq == event.seq)
                && ((record'.occurred_at == event.occurred_at)
                    && (event_type_beq record'.type event.type
                        && text_beq record'.payload event.payload)))))

abbrev pub new_event : ℕ → EventEnvelope → EventRecord
new_event cursor event = record {
  cursor = cursor;
  event_id = event.event_id;
  run_id = event.run_id;
  attempt_id = event.attempt_id;
  engine = event.engine;
  seq = event.seq;
  occurred_at = event.occurred_at;
  type = event.type;
  payload = event.payload;
}

-- The three writes for a new event.
abbrev pub put_event : EventEnvelope → EventRecord → RunRepository → RunRepository
put_event event added s = record s {
  next_cursor = s.next_cursor + 1;
  events = insert event.event_id added s.events;
  event_sequences = insert (event.attempt_id, event.seq) event.event_id s.event_sequences;
}

-- `existing = self._events.get(event.event_id)` and what follows it
abbrev pub store_event : EventEnvelope → Option EventRecord → Method EventRecord
store_event event (some existing) =
    if event_matches existing event then pure existing else raise event_conflict
store_event event none = do
  taken ← gets (λ s. lookup (event.attempt_id, event.seq) s.event_sequences)
  raise_if (is_some taken) event_conflict
  added ← gets (λ s. new_event s.next_cursor event)
  modify (put_event event added)
  pure added

unfoldable pub append_event : EventEnvelope → Method EventRecord
unfolding get_locked get_attempt_locked
append_event event = do
  attempt ← get_attempt_locked event.attempt_id
  raise_if (not (attempt.run_id == event.run_id)) event_conflict
  run ← get_locked event.run_id
  raise_if (not (engine_beq run.engine event.engine)) event_conflict
  existing ← gets (λ s. lookup event.event_id s.events)
  store_event event existing

unfoldable pub list_events : Uuid → ℤ → Method (List EventRecord)
unfolding get_locked
list_events run_id after = do
  raise_if (is_negative after) value_error
  get_locked run_id >>= λ run. pure tt
  events ← gets (λ s.
      keep (λ item. (item.run_id == run_id) && ltb (to_nat after) item.cursor) (values s.events))
  pure (sorted (λ a b. leb a.cursor b.cursor) events)
