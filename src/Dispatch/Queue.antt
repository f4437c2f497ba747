-- ===== src/Dispatch/Queue.antt =====
-- What workers/tasks.py does to the run that it is given.
use smarttest_platform.Base.{
  refl, ◌≡◌, ◌≢◌, inl, inr, nat_eq, some, ok, err, arith, ◌⊎◌, ◌+◌, invalid_transition,
}
use smarttest_platform.Base.Dict.{lookup, lookup-insert_self}
use smarttest_platform.Protocol.{Uuid}
use smarttest_platform.Domain.{RunState, RunRecord}
use smarttest_platform.Domain.Records.{run_with_state}
use smarttest_platform.Domain.State.{transition_run}
use smarttest_platform.Repository.State.{Clock, RunRepository, put_run}
use smarttest_platform.Repository.Runs.{get, transition}
use smarttest_platform.Dispatch.{prepare_run}

abbrev pub advanced : RunRecord → RunState → Clock → RunRecord
advanced r state c = record r {
  state = state;
  updated_at = c 0;
  state_version = r.state_version + 1;
}

queue_state :
    (st : RunState)
    → (st ≡ RunState.created)
      ⊎ (st ≡ RunState.queued)
      ⊎ ((st ≢ RunState.queued) × (st ≢ RunState.created))
queue_state RunState.created = inl refl
queue_state RunState.queued = inr (inl refl)
queue_state _ = inr (inr (λ h. cc, λ h. cc))

-- A worker that prepares a run moves a queued run to DISPATCHING and writes nothing else; it
-- refuses a run that is not queued yet, and leaves every other run as it finds it, so that a
-- message that is delivered twice does nothing the second time.
pub prepare_run_lem :
    (s : RunRepository) (k : Uuid) (c : Clock) (r : RunRecord)
    → lookup k s.runs ≡ some r
    → ((r.state ≡ RunState.created) × (prepare_run k c s ≡ (err invalid_transition, s)))
      ⊎ ((r.state ≡ RunState.queued)
          × (prepare_run k c s ≡ (
            ok (advanced r RunState.dispatching c),
            put_run k (advanced r RunState.dispatching c) s,
          ))
          × ((c' : Clock) → prepare_run k c' (prepare_run k c s).1 ≡ prepare_run k c s))
      ⊎ ((r.state ≢ RunState.queued)
          × (r.state ≢ RunState.created)
          × (prepare_run k c s ≡ (ok r, s)))
unfolding prepare_run get transition run_with_state transition_run
prepare_run_lem s k c r found = elim (queue_state r.state) [
  | inl q ↦ inl (q, ground arith)
  | inr rest ↦ elim rest [
    | inl q ↦ inr (
        inl (
          q,
          ground arith,
          λ c'. ground (arith, lookup-insert_self k (advanced r RunState.dispatching c) s.runs),
        ))
    | inr (p, q) ↦ inr (inr (p, q, ground arith))
  ]
]
