-- ===== src/Repository/WellFormed.antt =====
-- What holds between two calls of services/api/repository.py: the indexes agree with the records.
use smarttest_platform.Base.{
  ◌+◌, ◌≡◌, refl, ◌<◌, inl, inr, none, some, nat_eq, pair_eq, is_some, true, arith, ◌==◌, ==_iff,
  Bool-cases, ap, ◌∙◌,
}
use smarttest_platform.Base.Dict.{
  lookup, lookup-insert, Distinct, Distinct-insert, found_after_insert, lookup-insert_self,
  lookup-insert_free,
}
use smarttest_platform.Base.Text.{Text, text_eq}
use smarttest_platform.Protocol.{Uuid, EventEnvelope}
use smarttest_platform.Domain.{RunRecord, AttemptRecord, EventRecord, ArtifactRecord}
use smarttest_platform.Domain.Lifecycle.{AttemptStep-same}
use smarttest_platform.Repository.State.{RunRepository, new_repository, put_run, put_attempt}
use smarttest_platform.Repository.Events.{new_event, put_event}
use smarttest_platform.Repository.Writes.{Write, Writes, put_key, put_artifact}

-- The run that a record names is there.
abbrev pub HasRun : RunRepository → Uuid → Type 0
HasRun s k = is_some (lookup k s.runs) ≡ true

-- The attempt that a record names is there, and is an attempt of the run that it names.
abbrev pub HasAttempt : RunRepository → Uuid → Uuid → Type 0
HasAttempt s k run_id = (a : AttemptRecord) × (lookup k s.attempts ≡ some a) × (a.run_id ≡ run_id)

pub record WellFormed (s : RunRepository) : Type 0 where
  pub run_ids : (k : Uuid) (r : RunRecord) → lookup k s.runs ≡ some r → r.id ≡ k
  pub attempt_ids :
      (k : Uuid) (a : AttemptRecord) → lookup k s.attempts ≡ some a → (a.id ≡ k) × HasRun s a.run_id
  pub keys : (key print : Text) (k : Uuid) → lookup key s.idempotency ≡ some (print, k) → HasRun s k
  pub event_ids :
      (k : Uuid) (e : EventRecord)
      → lookup k s.events ≡ some e
      → (e.event_id ≡ k)
        × (e.cursor < s.next_cursor)
        × (lookup (e.attempt_id, e.seq) s.event_sequences ≡ some k)
        × HasAttempt s e.attempt_id e.run_id
  pub cursors :
      (k j : Uuid) (e d : EventRecord)
      → lookup k s.events ≡ some e
      → lookup j s.events ≡ some d
      → e.cursor ≡ d.cursor
      → k ≡ j
  pub artifact_ids :
      (k : Uuid) (x : ArtifactRecord)
      → lookup k s.artifacts ≡ some x
      → (x.id ≡ k) × HasAttempt s x.attempt_id x.run_id
  pub attempts_distinct : Distinct s.attempts
  pub runs_distinct : Distinct s.runs

-- A run that was there is there after a write to the runs.
HasRun-put :
    (s : RunRepository) (k j : Uuid) (r : RunRecord) → HasRun s j → HasRun (put_run k r s) j
HasRun-put s k j r h = rw lookup-insert (ground arith)

HasAttempt-put :
    (s : RunRepository) (k j run_id : Uuid) (a : AttemptRecord)
    → ((b : AttemptRecord) → lookup k s.attempts ≡ some b → a.run_id ≡ b.run_id)
    → HasAttempt s j run_id
    → HasAttempt (put_attempt k a s) j run_id
HasAttempt-put s k j run_id a same (b, found, of_run) = elim (Bool-cases (k == j)) [
  | inl e ↦ (a, rw lookup-insert (rw e), ground (arith, same b, ==_iff k j))
  | inr e ↦ (b, rw lookup-insert (rw e found), of_run)
]

put_run-WellFormed :
    (s : RunRepository) (k : Uuid) (r : RunRecord)
    → r.id ≡ k
    → WellFormed s
    → WellFormed (put_run k r s)
put_run-WellFormed s k r same w = record {
  run_ids = λ j x h. ground (arith, lookup-insert k j r s.runs, w.run_ids j x);
  attempt_ids =
      λ j a h. ((w.attempt_ids j a h).0, HasRun-put s k a.run_id r (w.attempt_ids j a h).1);
  keys = λ key print j h. HasRun-put s k j r (w.keys key print j h);
  event_ids = w.event_ids;
  cursors = w.cursors;
  artifact_ids = w.artifact_ids;
  attempts_distinct = w.attempts_distinct;
  runs_distinct = Distinct-insert k r s.runs w.runs_distinct;
}

put_attempt-WellFormed :
    (s : RunRepository) (k : Uuid) (a : AttemptRecord)
    → a.id ≡ k
    → HasRun s a.run_id
    → ((b : AttemptRecord) → lookup k s.attempts ≡ some b → a.run_id ≡ b.run_id)
    → WellFormed s
    → WellFormed (put_attempt k a s)
put_attempt-WellFormed s k a same run old w = record {
  run_ids = w.run_ids;
  attempt_ids = λ j x h. ground (arith, lookup-insert k j a s.attempts, w.attempt_ids j x);
  keys = w.keys;
  event_ids = λ j e h.
      let (id, below, seq, owner) = w.event_ids j e h in
      (id, below, seq, HasAttempt-put s k e.attempt_id e.run_id a old owner);
  cursors = w.cursors;
  artifact_ids = λ j x h.
      let (id, owner) = w.artifact_ids j x h in
      (id, HasAttempt-put s k x.attempt_id x.run_id a old owner);
  attempts_distinct = Distinct-insert k a s.attempts w.attempts_distinct;
  runs_distinct = w.runs_distinct;
}

put_key-WellFormed :
    (s : RunRepository) (key print : Text) (k : Uuid)
    → HasRun s k
    → WellFormed s
    → WellFormed (put_key key print k s)
put_key-WellFormed s key print k run w = record {
  run_ids = w.run_ids;
  attempt_ids = w.attempt_ids;
  keys = λ key' print' j h.
      elim (found_after_insert key key' (print, k) (print', j) s.idempotency h) [
        | inl (_, e) ↦ rw (← ap (λ (p : Text × Uuid). p.1) e) run
        | inr (_, old) ↦ w.keys key' print' j old
      ];
  event_ids = w.event_ids;
  cursors = w.cursors;
  artifact_ids = w.artifact_ids;
  attempts_distinct = w.attempts_distinct;
  runs_distinct = w.runs_distinct;
}

module _ (s : RunRepository) (event : EventEnvelope) (w : WellFormed s) where
  abbrev stored : EventRecord
  stored = new_event s.next_cursor event

  -- The new cursor is above those in use, and the new sequence number is free.
  put_event-event_ids :
      HasAttempt s event.attempt_id event.run_id
      → lookup (event.attempt_id, event.seq) s.event_sequences ≡ none
      → (k : Uuid) (e : EventRecord) → lookup k (put_event event stored s).events ≡ some e
      → (e.event_id ≡ k)
        × (e.cursor < s.next_cursor + 1)
        × (lookup (e.attempt_id, e.seq) (put_event event stored s).event_sequences ≡ some k)
        × HasAttempt s e.attempt_id e.run_id
  put_event-event_ids owner free k e h =
      elim (found_after_insert event.event_id k stored e s.events h) [
        | inl (same, new) ↦
            rw (← new, ← same)
              (
                refl,
                omega arith,
                lookup-insert_self (event.attempt_id, event.seq) _ s.event_sequences,
                owner,
              )
        | inr (_, old) ↦
            let (id, below, seq, has) = w.event_ids k e old in
            (
              id,
              omega arith,
              lookup-insert_free (event.attempt_id, event.seq) _ _ k _ free seq,
              has,
            )
      ]

  put_event-cursors :
      (k j : Uuid) (e d : EventRecord)
      → lookup k (put_event event stored s).events ≡ some e
      → lookup j (put_event event stored s).events ≡ some d
      → e.cursor ≡ d.cursor
      → k ≡ j
  put_event-cursors k j e d h g same =
      elim (found_after_insert event.event_id k stored e s.events h) [
        | inl (here, new) ↦ elim (found_after_insert event.event_id j stored d s.events g) [
          | inl (there, _) ↦ cc
          | inr (_, old) ↦
              absurd
                (omega (arith, (w.event_ids j d old).1, ap (λ (x : EventRecord). x.cursor) new))
        ]
        | inr (_, old) ↦ elim (found_after_insert event.event_id j stored d s.events g) [
          | inl (_, new) ↦
              absurd
                (omega (arith, (w.event_ids k e old).1, ap (λ (x : EventRecord). x.cursor) new))
          | inr (_, old') ↦ w.cursors k j e d old old' same
        ]
      ]

  put_event-WellFormed :
      HasAttempt s event.attempt_id event.run_id
      → lookup (event.attempt_id, event.seq) s.event_sequences ≡ none
      → WellFormed (put_event event stored s)
  put_event-WellFormed owner free = record {
    run_ids = w.run_ids;
    attempt_ids = w.attempt_ids;
    keys = w.keys;
    event_ids = put_event-event_ids owner free;
    cursors = put_event-cursors;
    artifact_ids = w.artifact_ids;
    attempts_distinct = w.attempts_distinct;
    runs_distinct = w.runs_distinct;
  }

put_artifact-WellFormed :
    (s : RunRepository) (added : ArtifactRecord)
    → HasAttempt s added.attempt_id added.run_id
    → WellFormed s
    → WellFormed (put_artifact added s)
put_artifact-WellFormed s added owner w = record {
  run_ids = w.run_ids;
  attempt_ids = w.attempt_ids;
  keys = w.keys;
  event_ids = w.event_ids;
  cursors = w.cursors;
  artifact_ids = λ k x h. elim (found_after_insert added.id k added x s.artifacts h) [
    | inl (same, new) ↦ rw (← new) (same, owner)
    | inr (_, old) ↦ w.artifact_ids k x old
  ];
  attempts_distinct = w.attempts_distinct;
  runs_distinct = w.runs_distinct;
}

-- Every write keeps the indexes in agreement with the records.
pub Write-WellFormed : {s t : RunRepository} → Write s t → WellFormed s → WellFormed t
Write-WellFormed (Write.add_run s r free) w = put_run-WellFormed s r.id r refl w
Write-WellFormed (Write.add_key s key print k free run) w = put_key-WellFormed s key print k run w
Write-WellFormed (Write.move_run s k r r' found step) w =
    put_run-WellFormed s k r' (step.id ∙ w.run_ids k r found) w
Write-WellFormed (Write.add_attempt s k a id free run) w =
    put_attempt-WellFormed s k a id run (λ b h. absurd (cc)) w
Write-WellFormed (Write.move_attempt s k a a' found step) w =
    let same = AttemptStep-same step in
    let (id, run) = w.attempt_ids k a found in
    put_attempt-WellFormed s k a' (same.id ∙ id) (rw same.run_id run)
      (λ b h. ground (arith, same.run_id)) w
Write-WellFormed (Write.add_event s event a found owner fresh free) w =
    put_event-WellFormed s event w (a, found, owner) free
Write-WellFormed (Write.add_artifact s added a found owner fresh) w =
    put_artifact-WellFormed s added (a, found, owner) w

pub Writes-WellFormed : {s t : RunRepository} → Writes s t → WellFormed s → WellFormed t
Writes-WellFormed Writes.here w = w
Writes-WellFormed (Writes.next ws x) w = Write-WellFormed x (Writes-WellFormed ws w)

pub new_repository-WellFormed : WellFormed new_repository
unfolding new_repository lookup
new_repository-WellFormed = record {
  run_ids = λ k r h. cc;
  attempt_ids = λ k a h. cc;
  keys = λ key print k h. cc;
  event_ids = λ k e h. cc;
  cursors = λ k j e d h. cc;
  artifact_ids = λ k x h. cc;
  attempts_distinct = tt;
  runs_distinct = tt;
}
