-- ===== src/Dispatch.antt =====
-- services/api/dispatcher.py and workers/tasks.py: a queued run is advanced for the runners.
-- Between the two steps of `prepare_run` and of `dispatch` no other call comes.
pub mod Queue
pub mod Coordinator
pub mod Calm
pub mod Rounds
use smarttest_platform.Base.{
  ℕ, Bool, true, false, not, Option, none, some, List, length, Error, pure, raise, raise_if, ◌>>=◌,
  ◌>>◌, if◌then◌else◌,
}
use smarttest_platform.Base.Exec.{invalid_transition}
use smarttest_platform.Protocol.{Uuid, Time}
use smarttest_platform.Domain.{RunState, RunRecord}
use smarttest_platform.Domain.State.{run_is}
use smarttest_platform.Repository.State.{Clock, Method}
use smarttest_platform.Repository.Runs.{get, transition}
use smarttest_platform.Repository.Leases.{expire_attempt_leases}
use smarttest_platform.Manager.{rescue, is_invalid_transition}

-- the handler of InvalidTransition in `prepare_run`
unfoldable pub lost_race : Uuid → Error → Method RunRecord
lost_race run_id e =
    if is_invalid_transition e
    then (do
      current ← get run_id
      if not (run_is current.state RunState.queued) then pure current else raise e)
    else raise e

unfoldable pub prepare_run : Uuid → Clock → Method RunRecord
unfolding lost_race rescue
prepare_run run_id clock = do
  current ← get run_id
  raise_if (run_is current.state RunState.created) invalid_transition
  if not (run_is current.state RunState.queued)
      then pure current
      else rescue (transition run_id RunState.dispatching clock) (lost_race run_id)

-- `transition` and `prepare_run` read the clock of their own
unfoldable pub retry_run : Uuid → Clock → Clock → Method RunRecord
retry_run run_id clock clock' = do
  current ← get run_id
  if not (run_is current.state RunState.retry_wait)
      then pure current
      else do transition run_id RunState.queued clock >>= λ run. pure tt; prepare_run run_id clock'

unfoldable pub recover_lost_attempts : Option Time → Clock → Method ℕ
recover_lost_attempts now clock = do
  expired ← expire_attempt_leases now clock
  pure (length expired)

-- DatabaseRunDispatcher.dispatch
unfoldable pub dispatch : Uuid → Clock → Method (Unit {0})
unfolding lost_race rescue
dispatch run_id clock = do
  current ← get run_id
  raise_if (run_is current.state RunState.created) invalid_transition
  if not (run_is current.state RunState.queued)
      then pure tt
      else (rescue (transition run_id RunState.dispatching clock) (lost_race run_id) >>= λ run.
          pure tt)
