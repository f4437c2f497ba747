-- ===== src/Repository/Attempts.antt =====
-- The methods of services/api/repository.py on attempts.
use smarttest_platform.Base.{
  ℕ, List, Option, none, some, pure, raise_if, lift, gets, modify, ◌>>=◌, ◌>>◌, nat_eq, is_some,
  keep, ◌==◌,
}
use smarttest_platform.Base.Exec.{attempt_conflict}
use smarttest_platform.Base.Dict.{lookup, values}
use smarttest_platform.Base.Int.{ℤ}
use smarttest_platform.Base.Sort.{sorted, pair_leb}
use smarttest_platform.Base.Text.{Text}
use smarttest_platform.Protocol.{Uuid, Time, ResultEnvelope}
use smarttest_platform.Domain.{RunState, AttemptState, RunRecord, AttemptRecord}
use smarttest_platform.Domain.Records.{
  new_attempt, run_with_state, attempt_with_state, with_result, claimed, with_heartbeat,
}
use smarttest_platform.Repository.State.{
  Clock, Method, get_locked, get_attempt_locked, put_run, put_attempt,
}

-- `value or default`, for an identifier or a datetime, which are always true
abbrev pub or_default : Option ℕ → ℕ → ℕ
or_default none d = d
or_default (some v) d = v

unfoldable pub create_attempt : Uuid → Option Uuid → Uuid → Clock → Method AttemptRecord
unfolding get_locked
create_attempt run_id attempt_id uuid clock = do
  get_locked run_id >>= λ run. pure tt
  let resolved_id = or_default attempt_id uuid
  attempts ← gets (λ s. s.attempts)
  raise_if (is_some (lookup resolved_id attempts)) attempt_conflict
  let attempt = new_attempt resolved_id run_id AttemptState.pending (clock 0)
  modify (put_attempt resolved_id attempt)
  pure attempt

unfoldable pub begin_attempt : Uuid → Uuid → Text → ℤ → Clock → Method (RunRecord × AttemptRecord)
unfolding get_locked
begin_attempt run_id attempt_id runner_id lease_seconds clock = do
  run ← get_locked run_id
  attempts ← gets (λ s. s.attempts)
  raise_if (is_some (lookup attempt_id attempts)) attempt_conflict
  running ← lift (run_with_state run RunState.running (clock 0))
  let pending = new_attempt attempt_id run_id AttemptState.pending (clock 1)
  attempt ← lift (claimed pending runner_id lease_seconds (clock 1) (clock 2))
  modify (put_run run_id running)
  modify (put_attempt attempt_id attempt)
  pure (running, attempt)

unfoldable pub get_attempt : Uuid → Method AttemptRecord
unfolding get_attempt_locked
get_attempt attempt_id = get_attempt_locked attempt_id

unfoldable pub list_attempts : Uuid → Method (List AttemptRecord)
unfolding get_locked
list_attempts run_id = do
  get_locked run_id >>= λ run. pure tt
  attempts ← gets (λ s. keep (λ item. item.run_id == run_id) (values s.attempts))
  pure (sorted (λ a b. pair_leb a.created_at a.id b.created_at b.id) attempts)

unfoldable pub transition_attempt : Uuid → AttemptState → Clock → Method AttemptRecord
unfolding get_attempt_locked
transition_attempt attempt_id target clock = do
  current ← get_attempt_locked attempt_id
  updated ← lift (attempt_with_state current target (clock 0))
  modify (put_attempt attempt_id updated)
  pure updated

unfoldable pub claim_attempt : Uuid → Text → ℤ → Option Time → Clock → Method AttemptRecord
unfolding get_attempt_locked
claim_attempt attempt_id runner_id lease_seconds now clock =
    let heartbeat = or_default now (clock 0) in
    do
      current ← get_attempt_locked attempt_id
      updated ← lift (claimed current runner_id lease_seconds heartbeat (clock 1))
      modify (put_attempt attempt_id updated)
      pure updated

unfoldable pub renew_attempt_lease : Uuid → Text → ℤ → Option Time → Clock → Method AttemptRecord
unfolding get_attempt_locked
renew_attempt_lease attempt_id runner_id lease_seconds now clock =
    let heartbeat = or_default now (clock 0) in
    do
      current ← get_attempt_locked attempt_id
      updated ← lift (with_heartbeat current runner_id lease_seconds heartbeat)
      modify (put_attempt attempt_id updated)
      pure updated

unfoldable pub complete_attempt :
    Uuid → AttemptState → ResultEnvelope → Clock → Method AttemptRecord
unfolding get_attempt_locked
complete_attempt attempt_id target result clock = do
  current ← get_attempt_locked attempt_id
  updated ← lift (with_result current target result (clock 0))
  modify (put_attempt attempt_id updated)
  pure updated
