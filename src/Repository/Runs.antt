-- ===== src/Repository/Runs.antt =====
-- The methods of services/api/repository.py on runs.
use smarttest_platform.Base.{
  ℕ, List, ◌∷◌, ◌++◌, Bool, true, false, not, Option, none, some, pure, lift, gets, modify,
  raise_if, ◌>>=◌, ◌>>◌, or_raise, ok, nat_eq, [], if◌then◌else◌, leb,
}
use smarttest_platform.Base.Exec.{idempotency_conflict, terminal_run_conflict, key_error}
use smarttest_platform.Base.Dict.{lookup, insert, values}
use smarttest_platform.Base.Sort.{sorted}
use smarttest_platform.Base.Text.{Text, text, text_beq, text_eq, strip}
use smarttest_platform.Protocol.{Uuid, Json, Engine, engine_value}
use smarttest_platform.Domain.{RunState, RunRecord}
use smarttest_platform.Domain.State.{run_terminal, run_is}
use smarttest_platform.Domain.Records.{run_with_state}
use smarttest_platform.Repository.State.{Clock, RunRepository, Method, get_locked, put_run}

-- The text of which `_fingerprint` takes the digest; `parameters` is canonical already.
unfoldable pub canonical_request : Engine → Json → Text
canonical_request engine parameters =
    text "{\"engine\":\""
    ++ (engine_value engine ++ (text "\",\"parameters\":" ++ (parameters ++ text "}")))

-- `if key` after the strip
abbrev drop_blank : Text → Option Text
drop_blank [] = none
drop_blank (c ∷ s) = some (c ∷ s)

-- `idempotency_key.strip() if idempotency_key else None`, where a blank key counts as none
unfoldable pub normal_key : Option Text → Option Text
normal_key none = none
normal_key (some key) = drop_blank (strip key)

abbrev pub new_run : Uuid → Engine → Json → ℕ → RunRecord
new_run id engine parameters now = record {
  id = id;
  engine = engine;
  parameters = parameters;
  state = RunState.created;
  created_at = now;
  updated_at = now;
  state_version = 0;
}

-- `if key: self._idempotency[key] = (fingerprint, run.id)`
abbrev remember : Option Text → Text → Uuid → Method (Unit {0})
remember none print uuid s = (ok tt, s)
remember (some key) print uuid s =
    (ok tt, record s { idempotency = insert key (print, uuid) s.idempotency })

-- `if key and key in self._idempotency`
abbrev pub saved_request : Option Text → RunRepository → Option (Text × Uuid)
saved_request none s = none
saved_request (some key) s = lookup key s.idempotency

-- the branch for a key that was used; `self._runs[run_id]` may raise KeyError
abbrev replay_request : Text → Text → Uuid → Method (RunRecord × Bool)
replay_request saved_fingerprint print run_id = do
  raise_if (not (text_beq saved_fingerprint print)) idempotency_conflict
  runs ← gets (λ s. s.runs)
  run ← or_raise (lookup run_id runs) key_error
  pure (run, true)

-- `sha256` is hashlib's digest in hexadecimal.
module _ (sha256 : Text → Text) where
  unfoldable pub fingerprint : Engine → Json → Text
  fingerprint engine parameters = sha256 (canonical_request engine parameters)

  -- the branch for a run that is not there yet
  unfoldable pub insert_new :
      Engine → Json → Option Text → Text → Uuid → Clock → Method (RunRecord × Bool)
  insert_new engine parameters key print uuid clock = do
    let run = new_run uuid engine parameters (clock 0)
    modify (put_run uuid run)
    remember key print uuid
    pure (run, false)

  -- the body under the lock
  unfoldable pub create_locked :
      Engine → Json → Option Text → Text → Uuid → Clock → Method (RunRecord × Bool)
  unfolding insert_new
  create_locked engine parameters key print uuid clock = do
    saved ← gets (saved_request key)
    elim saved [
      | none ↦ insert_new engine parameters key print uuid clock
      | some (saved_fingerprint, run_id) ↦ replay_request saved_fingerprint print run_id
    ]

  unfoldable pub create_or_get :
      Engine → Json → Option Text → Uuid → Clock → Method (RunRecord × Bool)
  create_or_get engine parameters idempotency_key uuid clock =
      create_locked engine parameters (normal_key idempotency_key) (fingerprint engine parameters)
        uuid clock

unfoldable pub list : Method (List RunRecord)
list s = (ok (sorted (λ a b. leb a.created_at b.created_at) (values s.runs)), s)

unfoldable pub get : Uuid → Method RunRecord
unfolding get_locked
get run_id = get_locked run_id

unfoldable pub transition : Uuid → RunState → Clock → Method RunRecord
unfolding get_locked
transition run_id target clock = do
  current ← get_locked run_id
  updated ← lift (run_with_state current target (clock 0))
  modify (put_run run_id updated)
  pure updated

unfoldable pub cancel : Uuid → Clock → Method RunRecord
unfolding get_locked
cancel run_id clock = do
  current ← get_locked run_id
  raise_if (run_terminal current.state) terminal_run_conflict
  if run_is current.state RunState.cancelling then pure current else do
    updated ← lift (run_with_state current RunState.cancelling (clock 0))
    modify (put_run run_id updated)
    pure updated
