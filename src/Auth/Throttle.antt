-- ===== src/Auth/Throttle.antt =====
-- LoginThrottle of services/api/auth_throttle.py: `attempt` up to its `yield`, its `finally`, and
-- the two records. The clock is an argument.
use smarttest_platform.Base.{
  ℕ, ◌+◌, ◌-◌, ◌∷◌, [], List, ◌++◌, Bool, none, some, ok, err, Action, if◌then◌else◌, ◌==◌, leb,
  length,
}
use smarttest_platform.Base.Exec.{login_rate_limited}
use smarttest_platform.Base.Dict.{Dict, lookup, insert, delete}
use smarttest_platform.Base.Text.{Text, text_eq}
use smarttest_platform.Protocol.{Time}

pub record LoginThrottle : Type 0 where
  pub max_failures : ℕ
  pub window : Time
  -- what is left of the semaphore
  pub slots : ℕ
  pub attempts : Dict Text (List Time)

-- `self._attempts[key]` of a defaultdict
abbrev pub attempts_of : Text → LoginThrottle → List Time
attempts_of key s = elim (lookup key s.attempts) [ none ↦ [] | some xs ↦ xs ]

-- `attempts[0] <= monotonic() - self._window_seconds`, with the window on the other side
abbrev pub expired : Time → Time → Time → Bool
expired window now t = leb (t + window) now

-- the loop that pops
unfoldable pub drop_expired : Time → Time → List Time → List Time
drop_expired window now [] = []
drop_expired window now (t ∷ ts) =
    let rest = drop_expired window now ts in if expired window now t then rest else t ∷ ts

abbrev pub put_attempts : Text → List Time → LoginThrottle → LoginThrottle
put_attempts key ts s = record s { attempts = insert key ts s.attempts }

-- `with self.attempt(key)` up to the body
unfoldable pub enter : Text → Time → Action LoginThrottle (Unit {0})
enter key now s =
    if s.slots == 0
    then (err login_rate_limited, s)
    else let left = drop_expired s.window now (attempts_of key s) in
      let pruned = put_attempts key left s in
      if leb s.max_failures (length left)
      then (err login_rate_limited, pruned)
      else (ok tt, record pruned { slots = s.slots - 1 })

-- the `finally` after the body
unfoldable pub leave : LoginThrottle → LoginThrottle
leave s = record s { slots = s.slots + 1 }

unfoldable pub record_failure : Text → Time → LoginThrottle → LoginThrottle
record_failure key now s = put_attempts key (attempts_of key s ++ (now ∷ [])) s

unfoldable pub record_success : Text → LoginThrottle → LoginThrottle
record_success key s = record s { attempts = delete key s.attempts }
