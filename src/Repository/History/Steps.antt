-- ===== src/Repository/History/Steps.antt =====
-- Each write to the store of services/api/repository.py leaves a later store.
use smarttest_platform.Base.{◌≡◌, inl, inr, none, some, nat_eq, pair_eq, arith, ◌==◌, Bool-cases}
use smarttest_platform.Base.Dict.{
  lookup, lookup-insert, found_after_insert, lookup-insert_free, found_unique, Dict,
}
use mathlib.Core.Path.{subst}
use smarttest_platform.Base.Text.{Text, text_eq}
use smarttest_platform.Protocol.{Uuid, EventEnvelope}
use smarttest_platform.Domain.{RunRecord, AttemptRecord, ArtifactRecord}
use smarttest_platform.Repository.State.{RunRepository, put_run, put_attempt}
use smarttest_platform.Repository.Events.{new_event, put_event}
use smarttest_platform.Repository.Writes.{Write, Writes}
use smarttest_platform.Repository.History.{
  RunLater, AttemptLater, Evolves, Evolves-refl, Evolves-trans, RunStep-later, AttemptStep-later,
  RunLater-refl, AttemptLater-refl,
}

module _ (s : RunRepository) (k : Uuid) where
  move_run-Evolves :
      (r r' : RunRecord) → lookup k s.runs ≡ some r → RunLater r r' → Evolves s (put_run k r' s)
  move_run-Evolves r r' found step = record {
    runs = λ j x h. elim (Bool-cases (k == j)) [
      | inl same ↦ (
        r',
        rw lookup-insert (rw same),
        subst (λ y. RunLater y r') (found_unique k j r x s.runs same found h) step,
      )
      | inr other ↦ (x, rw lookup-insert (rw other h), RunLater-refl x)
    ];
    attempts = (Evolves-refl s).attempts;
    keys = (Evolves-refl s).keys;
    events = (Evolves-refl s).events;
    artifacts = (Evolves-refl s).artifacts;
    cursor = (Evolves-refl s).cursor;
    new_events = (Evolves-refl s).new_events;
  }

  add_run-Evolves : (r : RunRecord) → lookup k s.runs ≡ none → Evolves s (put_run k r s)
  add_run-Evolves r free = record {
    runs = λ j x h. (x, lookup-insert_free k j r x s.runs free h, RunLater-refl x);
    attempts = (Evolves-refl s).attempts;
    keys = (Evolves-refl s).keys;
    events = (Evolves-refl s).events;
    artifacts = (Evolves-refl s).artifacts;
    cursor = (Evolves-refl s).cursor;
    new_events = (Evolves-refl s).new_events;
  }

  move_attempt-Evolves :
      (a a' : AttemptRecord)
      → lookup k s.attempts ≡ some a
      → AttemptLater a a'
      → Evolves s (put_attempt k a' s)
  move_attempt-Evolves a a' found step = record {
    runs = (Evolves-refl s).runs;
    attempts = λ j x h. elim (Bool-cases (k == j)) [
      | inl same ↦ (
        a',
        rw lookup-insert (rw same),
        subst (λ y. AttemptLater y a') (found_unique k j a x s.attempts same found h) step,
      )
      | inr other ↦ (x, rw lookup-insert (rw other h), AttemptLater-refl x)
    ];
    keys = (Evolves-refl s).keys;
    events = (Evolves-refl s).events;
    artifacts = (Evolves-refl s).artifacts;
    cursor = (Evolves-refl s).cursor;
    new_events = (Evolves-refl s).new_events;
  }

  add_attempt-Evolves :
      (a : AttemptRecord) → lookup k s.attempts ≡ none → Evolves s (put_attempt k a s)
  add_attempt-Evolves a free = record {
    runs = (Evolves-refl s).runs;
    attempts = λ j x h. (x, lookup-insert_free k j a x s.attempts free h, AttemptLater-refl x);
    keys = (Evolves-refl s).keys;
    events = (Evolves-refl s).events;
    artifacts = (Evolves-refl s).artifacts;
    cursor = (Evolves-refl s).cursor;
    new_events = (Evolves-refl s).new_events;
  }

add_event-Evolves :
    (s : RunRepository) (event : EventEnvelope)
    → lookup event.event_id s.events ≡ none
    → Evolves s (put_event event (new_event s.next_cursor event) s)
add_event-Evolves s event free = record {
  runs = (Evolves-refl s).runs;
  attempts = (Evolves-refl s).attempts;
  keys = (Evolves-refl s).keys;
  events = λ k e h. lookup-insert_free event.event_id k _ e s.events free h;
  artifacts = (Evolves-refl s).artifacts;
  cursor = omega arith;
  new_events = λ k e h.
      elim (found_after_insert event.event_id k (new_event s.next_cursor event) e s.events h) [
        | inl (_, new) ↦ inr (rw (← new) (omega arith))
        | inr (_, old) ↦ inl old
      ];
}

-- A write that leaves the runs, the attempts and the events.
side_write-Evolves :
    (s : RunRepository) (keys : Dict Text (Text × Uuid)) (artifacts : Dict Uuid ArtifactRecord)
    → ((key : Text) (v : Text × Uuid)
        → lookup key s.idempotency ≡ some v
        → lookup key keys ≡ some v)
    → ((k : Uuid) (x : ArtifactRecord)
        → lookup k s.artifacts ≡ some x
        → lookup k artifacts ≡ some x)
    → Evolves s (record s { idempotency = keys; artifacts = artifacts })
side_write-Evolves s keys artifacts kept kept' = record {
  runs = (Evolves-refl s).runs;
  attempts = (Evolves-refl s).attempts;
  keys = kept;
  events = (Evolves-refl s).events;
  artifacts = kept';
  cursor = (Evolves-refl s).cursor;
  new_events = (Evolves-refl s).new_events;
}

pub Write-Evolves : {s t : RunRepository} → Write s t → Evolves s t
Write-Evolves (Write.add_run s r free) = add_run-Evolves s r.id r free
Write-Evolves (Write.add_key s key print k free run) =
    side_write-Evolves s _ s.artifacts
      (λ j v h. lookup-insert_free key j (print, k) v s.idempotency free h) (λ j x h. h)
Write-Evolves (Write.move_run s k r r' found step) =
    move_run-Evolves s k r r' found (RunStep-later step)
Write-Evolves (Write.add_attempt s k a id free run) = add_attempt-Evolves s k a free
Write-Evolves (Write.move_attempt s k a a' found step) =
    move_attempt-Evolves s k a a' found (AttemptStep-later step)
Write-Evolves (Write.add_event s event a found owner fresh free) = add_event-Evolves s event fresh
Write-Evolves (Write.add_artifact s added a found owner fresh) =
    side_write-Evolves s s.idempotency _ (λ j v h. h)
      (λ j x h. lookup-insert_free added.id j added x s.artifacts fresh h)

pub Writes-Evolves : {s t : RunRepository} → Writes s t → Evolves s t
Writes-Evolves {s} Writes.here = Evolves-refl s
Writes-Evolves (Writes.next ws w) = Evolves-trans (Writes-Evolves ws) (Write-Evolves w)
