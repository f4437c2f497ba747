-- ===== src/Repository/State.antt =====
-- `RunRepository.__init__`, and the lookups under the lock.
use smarttest_platform.Base.{ℕ, [], Action, or_raise, nat_eq}
use smarttest_platform.Base.Exec.{run_not_found, attempt_not_found}
use smarttest_platform.Base.Dict.{Dict, lookup, insert}
use smarttest_platform.Base.Text.{Text}
use smarttest_platform.Protocol.{Uuid, Time}
use smarttest_platform.Domain.{RunRecord, AttemptRecord, EventRecord, ArtifactRecord}

-- The readings of the clock in one call, in order.
abbrev pub Clock : Type 0
Clock = ℕ → Time

pub record RunRepository : Type 0 where
  pub runs : Dict Uuid RunRecord
  -- key ↦ (fingerprint, run id)
  pub idempotency : Dict Text (Text × Uuid)
  pub attempts : Dict Uuid AttemptRecord
  pub events : Dict Uuid EventRecord
  -- (attempt id, seq) ↦ event id
  pub event_sequences : Dict (Uuid × ℕ) Uuid
  pub artifacts : Dict Uuid ArtifactRecord
  pub next_cursor : ℕ

unfoldable pub new_repository : RunRepository
new_repository = record {
  runs = [];
  idempotency = [];
  attempts = [];
  events = [];
  event_sequences = [];
  artifacts = [];
  next_cursor = 1;
}

-- A method of the repository.
abbrev pub Method {ℓ} : Type ℓ → Type ℓ
Method A = Action RunRepository A

unfoldable pub get_locked : Uuid → Method RunRecord
get_locked run_id s = or_raise (lookup run_id s.runs) run_not_found s

unfoldable pub get_attempt_locked : Uuid → Method AttemptRecord
get_attempt_locked attempt_id s = or_raise (lookup attempt_id s.attempts) attempt_not_found s

-- self._runs[run_id] = run
abbrev pub put_run : Uuid → RunRecord → RunRepository → RunRepository
put_run run_id run s = record s { runs = insert run_id run s.runs }

-- self._attempts[attempt_id] = attempt
abbrev pub put_attempt : Uuid → AttemptRecord → RunRepository → RunRepository
put_attempt attempt_id attempt s = record s { attempts = insert attempt_id attempt s.attempts }
