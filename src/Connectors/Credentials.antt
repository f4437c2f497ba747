-- ===== src/Connectors/Credentials.antt =====
-- The credentials of services/api/connector_repository.py.
use smarttest_platform.Base.{
  ℕ, Bool, false, some, Result, ok, ◌≡◌, refl, Option-cases, Result-cases, ◌∙◌, inl, inr, nat_eq,
  bind,
}
use smarttest_platform.Base.Text.{Text, text_eq}
use smarttest_platform.Base.Dict.{lookup, lookup-insert_self}
use smarttest_platform.Protocol.{Uuid, Time}
use smarttest_platform.Plan.Environments.{EncryptedSecret}
use smarttest_platform.Connectors.Methods.{
  create_connector, credential_for, first_credential, ConnectorSettings, ConnectorRepository,
  ConnectorRecord, needs_none, validate_connector_name, validate_credential, new_connector,
}
use mathlib.Core.Path.{subst, ap}

module _ (casefold : Text → Text) (encrypt : Text → Uuid → ℕ → Result EncryptedSecret)
    (decrypt : EncryptedSecret → Uuid → ℕ → Result Text)
    (decrypts : (t : Text) (id : Uuid) (n : ℕ) (c : EncryptedSecret)
      → encrypt t id n ≡ ok c
      → decrypt c id n ≡ ok t) where
  -- The credential that a call is given comes back from the record that it stores: with an
  -- encryptor that decrypts what it has encrypted, when `create_connector` returns for an
  -- authentication that needs a credential, the returned record is stored under the new
  -- identifier, and `credential_for` of it returns the given credential.
  pub create_connector_roundtrip :
      (settings : ConnectorSettings) (credential : Text) (enabled : Bool) (uuid : Uuid) (now : Time)
      (s : ConnectorRepository) (r : ConnectorRecord)
      → needs_none settings.auth_type ≡ false
      → (create_connector casefold encrypt decrypt settings (some credential) enabled uuid now s).0
        ≡ ok r
      → (lookup uuid
            (create_connector casefold encrypt decrypt settings
              (some credential)
              enabled
              uuid
              now
              s).1.connectors
          ≡ some r)
        × (credential_for casefold encrypt decrypt r ≡ ok (some credential))
  unfolding create_connector credential_for first_credential
  create_connector_roundtrip settings credential enabled uuid now s r needed =
      elim (Result-cases (validate_connector_name settings.name)) [
        | inr (x, e) ↦ rw e (λ h. cc)
        | inl (n, e) ↦
            elim (Result-cases (validate_credential settings.auth_type (some credential))) [
              | inr (x, f) ↦ rw (e, f) (λ h. cc)
              | inl (u, f) ↦ elim (Result-cases (encrypt credential uuid 1)) [
                | inr (x, g) ↦ rw (e, f, needed, g) (λ h. cc)
                | inl (c, g) ↦ elim (Option-cases (lookup (casefold n) s.connector_names)) [
                  | inr (owner, o) ↦ rw (e, f, needed, g, o) (λ h. cc)
                  | inl o ↦
                      rw (e, f, needed, g, o)
                        (λ h. (
                          lookup-insert_self uuid _ s.connectors ∙ ap some (made _ h),
                          subst
                              (λ x.
                                credential_for casefold encrypt decrypt x ≡ ok (some credential))
                              (made (new_connector uuid n settings (some c) enabled now) h)
                              (opened c (decrypts credential uuid 1 c g)),
                        ))
                ]
              ]
            ]
      ]
    where
      made : (q : ConnectorRecord) → ok q ≡ ok r → q ≡ r
      made q h = cc

      opened :
          (c : EncryptedSecret)
          → decrypt c uuid 1 ≡ ok credential
          → bind (decrypt c uuid 1) (λ t. ok (some t)) ≡ ok (some credential)
      opened c h = rw h refl
