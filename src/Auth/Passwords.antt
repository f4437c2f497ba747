-- ===== src/Auth/Passwords.antt =====
-- services/api/auth_domain.py. Unicode's NFKC form, `str.casefold` and PBKDF2 are parameters; bytes
-- are lists of numbers.
use smarttest_platform.Base.{
  ℕ, ◌∷◌, [], List, Bool, true, not, ◌&&◌, ◌||◌, Option, none, some, Result, ok, ◌≡◌, refl,
  Bool-cases, inl, inr, bind, check, ◌==◌, leb, ltb, length, any_of,
}
use smarttest_platform.Base.Exec.{value_error}
use smarttest_platform.Base.Text.{Text, text_beq, text_beq_iff, strip}
use smarttest_platform.Protocol.{Uuid, Time}
use mathlib.Core.Path.{subst}

pub data UserRole : Type 0 where
  admin : UserRole

pub record PasswordDigest : Type 0 where
  pub salt : List ℕ
  pub digest : List ℕ
  pub iterations : ℕ

pub record UserRecord : Type 0 where
  pub id : Uuid
  pub username : Text
  pub display_name : Text
  pub role : UserRole
  pub is_active : Bool
  pub created_at : Time
  pub updated_at : Time
  pub password : PasswordDigest

abbrev password_iterations : ℕ
password_iterations = 600000

-- PasswordDigest.__post_init__
unfoldable pub new_digest : List ℕ → List ℕ → ℕ → Result PasswordDigest
new_digest salt digest iterations =
    bind (check (ltb iterations password_iterations) value_error) (λ u.
      bind (check (ltb (length salt) 16 || not (length digest == 32)) value_error)
        (λ u. ok (record { salt = salt; digest = digest; iterations = iterations })))

-- [A-Za-z0-9._-]
abbrev name_char : ℕ → Bool
name_char c =
    (leb 65 c && leb c 90)
    || ((leb 97 c && leb c 122)
        || ((leb 48 c && leb c 57) || ((c == 46) || ((c == 95) || (c == 45)))))

-- USERNAME_PATTERN.fullmatch
unfoldable pub matches_username : Text → Bool
matches_username t =
    not (any_of (λ c. not (name_char c)) t) && (leb 3 (length t) && leb (length t) 64)

-- `salt or secrets.token_bytes(...)`
abbrev resolved_salt : Option (List ℕ) → List ℕ → List ℕ
resolved_salt none random = random
resolved_salt (some []) random = random
resolved_salt (some (b ∷ bs)) random = b ∷ bs

module _ (nfkc casefold : Text → Text) where
  unfoldable pub normalize_username : Text → Text
  normalize_username username = casefold (nfkc (strip username))

  unfoldable pub validate_username : Text → Result Text
  validate_username username =
      bind (check (not (matches_username (normalize_username username))) value_error)
        (λ u. ok (normalize_username username))

module _ (pbkdf2 : Text → List ℕ → ℕ → List ℕ) where
  unfoldable pub hash_password : Text → Option (List ℕ) → List ℕ → Result PasswordDigest
  hash_password password salt random =
      new_digest (resolved_salt salt random)
        (pbkdf2 password (resolved_salt salt random) password_iterations) password_iterations

  -- `hmac.compare_digest` compares the bytes.
  unfoldable pub verify_password : Text → PasswordDigest → Bool
  verify_password password expected =
      text_beq (pbkdf2 password expected.salt expected.iterations) expected.digest

  -- A digest that is made of a password verifies it, whatever the salt.
  pub hash_password_roundtrip :
      (password : Text) (salt : Option (List ℕ)) (random : List ℕ) (d : PasswordDigest)
      → hash_password password salt random ≡ ok d
      → verify_password password d ≡ true
  unfolding hash_password verify_password new_digest
  hash_password_roundtrip password salt random d =
      elim (Bool-cases
        (ltb (length given) 16 || not (length (pbkdf2 password given password_iterations) == 32))) [
          | inl e ↦ rw e (λ h. cc)
          | inr e ↦ rw e (λ h.
              verifies _ h ((text_beq_iff (pbkdf2 password given password_iterations) _).1 refl))
        ]
    where
      given : List ℕ
      given = resolved_salt salt random

      the_digest : (q : PasswordDigest) → ok q ≡ ok d → q ≡ d
      the_digest q h = cc

      verifies :
          (q : PasswordDigest)
          → ok q ≡ ok d
          → text_beq (pbkdf2 password q.salt q.iterations) q.digest ≡ true
          → text_beq (pbkdf2 password d.salt d.iterations) d.digest ≡ true
      verifies q h v =
          subst
            (λ (x : PasswordDigest). text_beq (pbkdf2 password x.salt x.iterations) x.digest ≡ true)
            (the_digest q h) v
