-- ===== src/Repository/Refinement/StoreMethods.antt =====
-- The methods of services/api/repository.py on events and artifacts are writes of
-- Repository/Writes.
use smarttest_platform.Base.{inl, inr, nat_eq, pair_eq, Option-cases, Bool-cases, ◌==◌, ==_iff}
use smarttest_platform.Base.Dict.{lookup}
use smarttest_platform.Protocol.{EventEnvelope, engine_beq}
use smarttest_platform.Domain.{ArtifactRecord}
use smarttest_platform.Repository.State.{RunRepository}
use smarttest_platform.Repository.Events.{append_event, event_matches}
use smarttest_platform.Repository.Artifacts.{create_artifact, artifact_beq}
use smarttest_platform.Repository.Writes.{Write, Writes, one-Write}

pub append_event-Writes :
    (s : RunRepository) (event : EventEnvelope) → Writes s (append_event event s).1
unfolding append_event
append_event-Writes s event = elim (Option-cases (lookup event.attempt_id s.attempts)) [
  | inl e ↦ rw e Writes.here
  | inr (a, e) ↦ rw e (elim (Bool-cases (a.run_id == event.run_id)) [
    | inr other ↦ rw other Writes.here
    | inl same ↦ rw same (elim (Option-cases (lookup event.run_id s.runs)) [
      | inl f ↦ rw f Writes.here
      | inr (r, f) ↦ rw f (elim (Bool-cases (engine_beq r.engine event.engine)) [
        | inr other ↦ rw other Writes.here
        | inl agrees ↦ rw agrees (elim (Option-cases (lookup event.event_id s.events)) [
          | inr (existing, g) ↦ rw g (elim (Bool-cases (event_matches existing event)) [
            | inl yes' ↦ rw yes' Writes.here
            | inr no' ↦ rw no' Writes.here
          ])
          | inl fresh ↦
              rw fresh
                (elim (Option-cases (lookup (event.attempt_id, event.seq) s.event_sequences)) [
                  | inr (k, taken) ↦ rw taken Writes.here
                  | inl free ↦ rw free (
                      one-Write (
                        Write.add_event s event a e ((==_iff a.run_id event.run_id).0 same) fresh
                          free))
                ])
        ])
      ])
    ])
  ])
]

pub create_artifact-Writes :
    (s : RunRepository) (added : ArtifactRecord) → Writes s (create_artifact added s).1
unfolding create_artifact
create_artifact-Writes s added = elim (Option-cases (lookup added.attempt_id s.attempts)) [
  | inl e ↦ rw e Writes.here
  | inr (a, e) ↦ rw e (elim (Bool-cases (a.run_id == added.run_id)) [
    | inr other ↦ rw other Writes.here
    | inl same ↦ rw same (elim (Option-cases (lookup added.run_id s.runs)) [
      | inl f ↦ rw f Writes.here
      | inr (r, f) ↦ rw f (elim (Option-cases (lookup added.id s.artifacts)) [
        | inr (existing, g) ↦ rw g (elim (Bool-cases (artifact_beq existing added)) [
          | inl yes' ↦ rw yes' Writes.here
          | inr no' ↦ rw no' Writes.here
        ])
        | inl fresh ↦ rw fresh (
            one-Write
              (Write.add_artifact s added a e ((==_iff a.run_id added.run_id).0 same) fresh))
      ])
    ])
  ])
]
