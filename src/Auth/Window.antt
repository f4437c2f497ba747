-- ===== src/Auth/Window.antt =====
-- The window of services/api/auth_throttle.py.
use smarttest_platform.Base.{
  ℕ, ◌≤◌, ◌∷◌, [], List, false, not, ◌||◌, ok, err, ◌≡◌, refl, arith, count_if, length, All,
  if◌then◌else◌, ◌==◌, leb,
}
use smarttest_platform.Base.Exec.{login_rate_limited}
use smarttest_platform.Base.Text.{Text}
use smarttest_platform.Protocol.{Time}
use smarttest_platform.Auth.Throttle.{LoginThrottle, enter, drop_expired, expired, attempts_of}

-- As a monotonic clock gives them.
abbrev pub IsAscending : List Time → Type 0
IsAscending [] = Unit
IsAscending (t ∷ ts) = All (λ (u : Time). t ≤ u) ts × IsAscending ts

-- The failures within the window.
abbrev pub recent : Time → Time → List Time → ℕ
recent window now ts = count_if (λ (t : Time). not (expired window now t)) ts

each_recent :
    (window now t : Time) (ts : List Time)
    → All (λ (u : Time). t ≤ u) ts
    → expired window now t ≡ false
    → recent window now ts ≡ length ts
each_recent window now t [] h e = refl
each_recent window now t (u ∷ ts) h e = ground (arith, each_recent window now t ts h.1 e, h.0)

length-drop_expired :
    (window now : Time) (ts : List Time)
    → IsAscending ts
    → length (drop_expired window now ts) ≡ recent window now ts
unfolding drop_expired
length-drop_expired window now [] h = refl
length-drop_expired window now (t ∷ ts) h =
    ground (arith, each_recent window now t ts h.0, length-drop_expired window now ts h.1)

-- An attempt with failures in the order of the clock is let in exactly when a slot is free and
-- fewer than `max_failures` of the key's failures lie within the window; else it is refused as
-- rate limited.
pub enter_lem :
    (key : Text) (now : Time) (s : LoginThrottle)
    → IsAscending (attempts_of key s)
    → (enter key now s).0 ≡ (
        if (s.slots == 0) || leb s.max_failures (recent s.window now (attempts_of key s))
        then err login_rate_limited
        else ok tt)
unfolding enter
enter_lem key now s h = ground (arith, length-drop_expired s.window now (attempts_of key s) h)
