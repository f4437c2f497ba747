-- ===== src/Auth/Methods.antt =====
-- AuthRepository of services/api/auth_repository.py.
use smarttest_platform.Base.{
  ℕ, ◌∷◌, [], List, ◌++◌, Bool, true, ◌&&◌, Option, none, some, is_some, is_none, ok, Action, pure,
  lift, gets, modify, raise_if, ◌>>=◌, ◌>>◌, if◌then◌else◌, ltb, keep, nat_eq,
}
use smarttest_platform.Base.Exec.{auth_already_initialized, username_conflict}
use smarttest_platform.Base.Dict.{Dict, lookup, insert}
use smarttest_platform.Base.Text.{Text, text_eq, text_beq}
use smarttest_platform.Protocol.{Uuid, Time}
use smarttest_platform.Auth.Passwords.{
  UserRecord, UserRole, PasswordDigest, normalize_username, validate_username,
}

pub record Session : Type 0 where
  pub user_id : Uuid
  pub token_digest : List ℕ
  pub expires_at : Time
  pub revoked_at : Option Time

pub record AuthRepository : Type 0 where
  pub initialized : Bool
  pub users : Dict Uuid UserRecord
  pub usernames : Dict Text Uuid
  pub sessions : List Session

abbrev pub AuthMethod {ℓ} : Type ℓ → Type ℓ
AuthMethod A = Action AuthRepository A

unfoldable pub is_initialized : AuthMethod Bool
is_initialized s = (ok s.initialized, s)

abbrev pub new_user : Uuid → Text → Text → Time → PasswordDigest → UserRecord
new_user uuid username display_name now password = record {
  id = uuid;
  username = username;
  display_name = display_name;
  role = UserRole.admin;
  is_active = true;
  created_at = now;
  updated_at = now;
  password = password;
}

abbrev put_user : Uuid → UserRecord → AuthRepository → AuthRepository
put_user id user s = record s {
  users = insert id user s.users;
  usernames = insert user.username id s.usernames;
  initialized = true;
}

module _ (nfkc casefold : Text → Text) where
  unfoldable pub initialize_admin :
      Text → Text → PasswordDigest → Uuid → Time → AuthMethod UserRecord
  initialize_admin username display_name password uuid now = do
    normalized ← lift (validate_username nfkc casefold username)
    initialized ← gets (λ (s : AuthRepository). s.initialized)
    raise_if initialized auth_already_initialized
    owner ← gets (λ (s : AuthRepository). lookup normalized s.usernames)
    raise_if (is_some owner) username_conflict
    modify (put_user uuid (new_user uuid normalized display_name now password))
    pure (new_user uuid normalized display_name now password)

  unfoldable pub find_user : Text → AuthRepository → Option UserRecord
  find_user username s = elim (lookup (normalize_username nfkc casefold username) s.usernames) [
    | none ↦ none
    | some id ↦ lookup id s.users
  ]

-- neither revoked nor expired
abbrev pub is_live : Time → Session → Bool
is_live now session = is_none session.revoked_at && ltb now session.expires_at

unfoldable pub create_session : Uuid → List ℕ → Time → Time → AuthMethod (Unit {0})
create_session user_id token_digest expires_at now = modify (λ (s : AuthRepository). record s {
  sessions =
      keep (is_live now) s.sessions
      ++ (record {
        user_id = user_id;
        token_digest = token_digest;
        expires_at = expires_at;
        revoked_at = none;
      }
          ∷ []);
})

-- the user of the session that was found
abbrev pub session_user : Time → Session → Option UserRecord → Option UserRecord
session_user now session none = none
session_user now session (some user) =
    if is_live now session && user.is_active then some user else none

-- the loop of `resolve_session`
unfoldable pub resolve_in : List Session → Dict Uuid UserRecord → List ℕ → Time → Option UserRecord
resolve_in [] users token_digest now = none
resolve_in (session ∷ sessions) users token_digest now =
    let rest = resolve_in sessions users token_digest now in
    if text_beq session.token_digest token_digest
    then session_user now session (lookup session.user_id users)
    else rest

unfoldable pub resolve_session : List ℕ → Time → AuthRepository → Option UserRecord
resolve_session token_digest current s = resolve_in s.sessions s.users token_digest current

-- `session.revoked_at or current`
abbrev revoked : Session → Time → Session
revoked session current = record session {
  revoked_at = some (elim session.revoked_at [ none ↦ current | some t ↦ t ]);
}

-- the loop of `revoke_session`
unfoldable pub revoke_in : List Session → List ℕ → Time → List Session
revoke_in [] token_digest current = []
revoke_in (session ∷ sessions) token_digest current =
    let rest = revoke_in sessions token_digest current in
    if text_beq session.token_digest token_digest
    then revoked session current ∷ sessions
    else session ∷ rest

unfoldable pub revoke_session : List ℕ → Time → AuthMethod (Unit {0})
revoke_session token_digest current =
    modify
      (λ (s : AuthRepository). record s { sessions = revoke_in s.sessions token_digest current })
