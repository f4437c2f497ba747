-- ===== src/Auth/Sessions.antt =====
-- The sessions of services/api/auth_repository.py that are revoked.
use smarttest_platform.Base.{
  ℕ, ◌≤◌, ◌∷◌, [], List, ◌++◌, Bool, true, false, ◌&&◌, Option, none, some, is_none, ◌≡◌, refl, ap,
  ◌∙◌, Option-cases, Bool-cases, Result-cases, arith, inl, inr, keep, count_if, any_of, nat_eq,
}
use smarttest_platform.Base.Dict.{lookup}
use smarttest_platform.Base.Text.{Text, text_eq, text_beq}
use smarttest_platform.Protocol.{Uuid, Time}
use smarttest_platform.Auth.Passwords.{PasswordDigest, UserRecord, validate_username}
use smarttest_platform.Auth.Methods.{
  Session, AuthRepository, initialize_admin, create_session, is_live, revoke_session, revoke_in,
  resolve_session, resolve_in, session_user,
}

-- A session with the digest of a token that is not revoked.
abbrev pub opens : List ℕ → Session → Bool
opens d x = text_beq x.token_digest d && is_none x.revoked_at

abbrev pub IsOut : List ℕ → List Session → Type 0
IsOut d xs = any_of (opens d) xs ≡ false

session_user-none :
    (now : Time) (x : Session) (u : Option UserRecord)
    → is_none x.revoked_at ≡ false
    → session_user now x u ≡ none
session_user-none now x none h = refl
session_user-none now x (some u) h = rw h refl

IsOut-resolve :
    (d : List ℕ) (xs : List Session) (s : AuthRepository) (now : Time)
    → IsOut d xs
    → resolve_in xs s.users d now ≡ none
unfolding resolve_in
IsOut-resolve d [] s now h = refl
IsOut-resolve d (x ∷ xs) s now h = elim (Bool-cases (text_beq x.token_digest d)) [
  | inr e ↦ rw e (IsOut-resolve d xs s now (ground arith))
  | inl e ↦ rw e (session_user-none now x (lookup x.user_id s.users) (closed e h))
]
  where
    closed :
        text_beq x.token_digest d ≡ true
        → any_of (opens d) (x ∷ xs) ≡ false
        → is_none x.revoked_at ≡ false
    closed e h = ground arith

IsOut-keep :
    (d : List ℕ) (test : Session → Bool) (xs : List Session) → IsOut d xs → IsOut d (keep test xs)
IsOut-keep d test [] h = refl
IsOut-keep d test (x ∷ xs) h = ground (arith, IsOut-keep d test xs)

IsOut-append :
    (d : List ℕ) (xs : List Session) (y : Session)
    → IsOut d xs
    → opens d y ≡ false
    → IsOut d (xs ++ (y ∷ []))
IsOut-append d [] y h other = ground arith
IsOut-append d (x ∷ xs) y h other = ground (arith, IsOut-append d xs y)

IsOut-revoke_in :
    (d e : List ℕ) (now : Time) (xs : List Session) → IsOut d xs → IsOut d (revoke_in xs e now)
unfolding revoke_in
IsOut-revoke_in d e now [] h = refl
IsOut-revoke_in d e now (x ∷ xs) h = ground (arith, IsOut-revoke_in d e now xs)

-- How many sessions have the digest.
abbrev pub sessions_of : List ℕ → List Session → ℕ
sessions_of d xs = count_if (λ (x : Session). text_beq x.token_digest d) xs

none_of : (d : List ℕ) (xs : List Session) → sessions_of d xs ≤ 0 → IsOut d xs
none_of d [] h = refl
none_of d (x ∷ xs) h = ground (arith, none_of d xs)

revoke_in-IsOut :
    (d : List ℕ) (now : Time) (xs : List Session)
    → sessions_of d xs ≤ 1
    → IsOut d (revoke_in xs d now)
unfolding revoke_in
revoke_in-IsOut d now [] h = refl
revoke_in-IsOut d now (x ∷ xs) h = ground (arith, none_of d xs, revoke_in-IsOut d now xs)

-- The calls that write.
pub data AuthCall : Type 0 where
  initializes : Text → Text → PasswordDigest → Uuid → Time → AuthCall
  creates_session : Uuid → List ℕ → Time → Time → AuthCall
  revokes_session : List ℕ → Time → AuthCall

-- The call makes no session with the digest.
abbrev pub IsOther : List ℕ → AuthCall → Type 0
IsOther d (AuthCall.creates_session user_id token_digest expires_at now) =
    text_beq token_digest d ≡ false
IsOther d _ = Unit

module _ (nfkc casefold : Text → Text) where
  abbrev pub after_auth : AuthCall → AuthRepository → AuthRepository
  after_auth (AuthCall.initializes username display_name password uuid now) s =
      (initialize_admin nfkc casefold username display_name password uuid now s).1
  after_auth (AuthCall.creates_session user_id token_digest expires_at now) s =
      (create_session user_id token_digest expires_at now s).1
  after_auth (AuthCall.revokes_session token_digest now) s = (revoke_session token_digest now s).1

  -- Any sequence of calls that make no session with the digest.
  pub data AuthCalls (d : List ℕ) (s : AuthRepository) : AuthRepository → Type 0 where
    here : AuthCalls d s s
    next :
        {t : AuthRepository}
        → AuthCalls d s t
        → (c : AuthCall) → IsOther d c
        → AuthCalls d s (after_auth c t)

  initialize_admin-sessions :
      (username display_name : Text) (password : PasswordDigest) (uuid : Uuid) (now : Time)
      (s : AuthRepository)
      → (initialize_admin nfkc casefold username display_name password uuid now s).1.sessions
        ≡ s.sessions
  unfolding initialize_admin
  initialize_admin-sessions username display_name password uuid now s =
      elim (Result-cases (validate_username nfkc casefold username)) [
        | inr (x, e) ↦ rw e
        | inl (n, e) ↦ elim (Bool-cases s.initialized) [
          | inl f ↦ rw (e, f)
          | inr f ↦ elim (Option-cases (lookup n s.usernames)) [
            | inl g ↦ rw (e, f, g)
            | inr (owner, g) ↦ rw (e, f, g)
          ]
        ]
      ]

  after_auth-IsOut :
      (d : List ℕ) (c : AuthCall) (s : AuthRepository)
      → IsOther d c
      → IsOut d s.sessions
      → IsOut d (after_auth c s).sessions
  unfolding create_session revoke_session
  after_auth-IsOut d (AuthCall.initializes username display_name password uuid now) s other h =
      ap (any_of (opens d)) (initialize_admin-sessions username display_name password uuid now s)
      ∙ h
  after_auth-IsOut d (AuthCall.creates_session user_id token_digest expires_at now) s other h =
      IsOut-append d (keep (is_live now) s.sessions) _ (IsOut-keep d (is_live now) s.sessions h)
        (rw other refl)
  after_auth-IsOut d (AuthCall.revokes_session token_digest now) s other h =
      IsOut-revoke_in d token_digest now s.sessions h

  calls-IsOut :
      (d : List ℕ) {s t : AuthRepository}
      → IsOut d s.sessions
      → AuthCalls d s t
      → IsOut d t.sessions
  calls-IsOut d h AuthCalls.here = h
  calls-IsOut d h (AuthCalls.next {t} run c other) =
      after_auth-IsOut d c t other (calls-IsOut d h run)

  -- A token whose session is revoked opens nothing any more: when at most one session has its
  -- digest, then after the revocation and any further calls that make no session with this
  -- digest, it resolves to no user, whatever the time that is given.
  pub revoke_session-AuthCalls :
      (d : List ℕ) (revoked now : Time) (s : AuthRepository) {t : AuthRepository}
      → sessions_of d s.sessions ≤ 1
      → AuthCalls d (revoke_session d revoked s).1 t
      → resolve_session d now t ≡ none
  unfolding resolve_session revoke_session
  revoke_session-AuthCalls d revoked now s {t} one run =
      IsOut-resolve d t.sessions t now
        (calls-IsOut d (revoke_in-IsOut d revoked s.sessions one) run)
