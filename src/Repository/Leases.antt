-- ===== src/Repository/Leases.antt =====
-- `RunRepository.expire_attempt_leases`: the sweep over the leases that are over.
use smarttest_platform.Base.{
  ℕ, ◌+◌, List, [], ◌∷◌, ◌++◌, Bool, false, not, ◌||◌, Option, none, some, leb, pure, lift, gets,
  modify, or_raise, ◌>>=◌, ◌>>◌, nat_eq, if◌then◌else◌,
}
use smarttest_platform.Base.Exec.{key_error}
use smarttest_platform.Base.Dict.{lookup}
use smarttest_platform.Protocol.{Uuid, Time}
use smarttest_platform.Domain.{RunState, RunRecord, AttemptRecord}
use smarttest_platform.Domain.State.{run_terminal, attempt_leased}
use smarttest_platform.Domain.Records.{run_with_state, lost}
use smarttest_platform.Repository.State.{Clock, Method, put_run, put_attempt}
use smarttest_platform.Repository.Attempts.{or_default}

-- `lease_expires_at is not None and lease_expires_at <= cutoff`
abbrev pub lease_ended : Option Time → Time → Bool
lease_ended none cutoff = false
lease_ended (some t) cutoff = leb t cutoff

-- The test by which the loop does not skip an attempt: `lease_expires_at is None` skips it.
abbrev pub has_expired : AttemptRecord → Time → Bool
has_expired current cutoff =
    not (not (attempt_leased current.state) || not (lease_ended current.lease_expires_at cutoff))

-- `run = self._runs[current.run_id]` and the write to it; `self._runs[run.id]` is by the run's id
abbrev pub fail_run : RunRecord → Time → Method (Unit {0})
fail_run run read = if run_terminal run.state then pure tt else do
  failed ← lift (run_with_state run RunState.infra_error read)
  modify (put_run run.id failed)

-- One round of the loop: the record that it adds to `expired`.
unfoldable pub expire_one : Clock → Time → ℕ → Uuid → AttemptRecord → Method (List AttemptRecord)
expire_one clock cutoff i attempt_id current =
    if has_expired current cutoff
    then (do
      updated ← lift (lost current cutoff (clock i))
      modify (put_attempt attempt_id updated)
      runs ← gets (λ s. s.runs)
      run ← or_raise (lookup current.run_id runs) key_error
      fail_run run (clock (i + 1))
      pure (updated ∷ []))
    else pure []

-- The loop over `list(self._attempts.items())`; two readings of the clock are kept for a round.
unfoldable pub sweep : Clock → Time → ℕ → List (Uuid × AttemptRecord) → Method (List AttemptRecord)
sweep clock cutoff i [] = pure []
sweep clock cutoff i ((attempt_id, current) ∷ items) = do
  first ← expire_one clock cutoff i attempt_id current
  others ← sweep clock cutoff (i + 2) items
  pure (first ++ others)

unfoldable pub expire_attempt_leases : Option Time → Clock → Method (List AttemptRecord)
expire_attempt_leases now clock =
    let cutoff = or_default now (clock 0) in
    do items ← gets (λ s. s.attempts); sweep clock cutoff 1 items
