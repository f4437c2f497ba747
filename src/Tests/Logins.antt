-- ===== src/Tests/Logins.antt =====
-- Passwords, sessions and login attempts.
use smarttest_platform.Base.{
  ℕ, ◌≡◌, refl, ok, err, [], ◌∷◌, List, nat_eq, none, true, false, arith, ◌≤◌, if◌then◌else◌, ◌==◌,
  ◌||◌, leb,
}
use smarttest_platform.Base.Exec.{login_rate_limited}
use smarttest_platform.Base.Dict.{lookup}
use smarttest_platform.Base.Text.{Text, text, text_eq, text_beq}
use smarttest_platform.Auth.Passwords.{
  PasswordDigest, hash_password, verify_password, hash_password_roundtrip, new_digest,
}
use smarttest_platform.Auth.Methods.{AuthRepository, revoke_session, resolve_session}
use smarttest_platform.Auth.Sessions.{
  AuthCall, AuthCalls, after_auth, sessions_of, revoke_session-AuthCalls,
}
use smarttest_platform.Auth.Throttle.{LoginThrottle, enter, attempts_of}
use smarttest_platform.Auth.Window.{IsAscending, recent, enter_lem}

-- Four bytes, eight times.
abbrev some_bytes : List ℕ
some_bytes =
    1 ∷ 2 ∷ 3 ∷ 4 ∷ 1 ∷ 2 ∷ 3 ∷ 4 ∷ 1 ∷ 2 ∷ 3 ∷ 4 ∷ 1 ∷ 2 ∷ 3 ∷ 4 ∷ 1 ∷ 2 ∷ 3 ∷ 4 ∷ 1 ∷ 2 ∷ 3 ∷ 4
    ∷ 1 ∷ 2 ∷ 3 ∷ 4 ∷ 1 ∷ 2 ∷ 3 ∷ 4 ∷ []

abbrev derive : Text → List ℕ → ℕ → List ℕ
derive password salt n = some_bytes

abbrev stored_digest : PasswordDigest
stored_digest = record { salt = some_bytes; digest = some_bytes; iterations = 600000 }

password_hashed : hash_password derive (text "secret") none some_bytes ≡ ok stored_digest
unfolding hash_password new_digest
password_hashed = refl

hash_password_roundtrip_example : verify_password derive (text "secret") stored_digest ≡ true
hash_password_roundtrip_example =
    hash_password_roundtrip derive (text "secret") none some_bytes stored_digest password_hashed

abbrev as_given : Text → Text
as_given t = t

abbrev logged_in : AuthRepository
logged_in = record {
  initialized = true;
  users = [];
  usernames = [];
  sessions =
      record { user_id = 4; token_digest = 1 ∷ 2 ∷ []; expires_at = 90; revoked_at = none } ∷ [];
}

one_session : sessions_of (1 ∷ 2 ∷ []) logged_in.sessions ≤ 1
unfolding text_beq
one_session = omega arith

other_digest : text_beq (3 ∷ []) (1 ∷ 2 ∷ []) ≡ false
unfolding text_beq
other_digest = refl

revoke_session-AuthCalls_example :
    resolve_session (1 ∷ 2 ∷ []) 12 (
      after_auth as_given as_given
        (AuthCall.creates_session 4 (3 ∷ []) 99 11)
        (revoke_session (1 ∷ 2 ∷ []) 10 logged_in).1)
    ≡ none
revoke_session-AuthCalls_example =
    revoke_session-AuthCalls as_given as_given (1 ∷ 2 ∷ []) 10 12 logged_in one_session
      (AuthCalls.next AuthCalls.here (AuthCall.creates_session 4 (3 ∷ []) 99 11) other_digest)

abbrev throttled : LoginThrottle
throttled = record {
  max_failures = 2;
  window = 300;
  slots = 4;
  attempts = (text "amy", 10 ∷ 200 ∷ 400 ∷ []) ∷ [];
}

failures_ascend : IsAscending (attempts_of (text "amy") throttled)
unfolding lookup text_beq
failures_ascend = ((omega arith, (omega arith, tt)), ((omega arith, tt), (tt, tt)))

enter_lem_example : (enter (text "amy") 450 throttled).0 ≡ (
    if (throttled.slots == 0)
      || leb throttled.max_failures (recent 300 450 (attempts_of (text "amy") throttled))
    then err login_rate_limited
    else ok tt)
enter_lem_example = enter_lem (text "amy") 450 throttled failures_ascend
