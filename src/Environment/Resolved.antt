-- ===== src/Environment/Resolved.antt =====
-- The secrets that services/api/environment_repository.py resolves.
use smarttest_platform.Base.{
  ℕ, ◌∷◌, [], List, not, some, is_some, Result, ok, ◌≡◌, refl, sym, ap, ◌∙◌, Option-cases,
  Bool-cases, Result-cases, inl, inr, nat_eq, pair_eq, option_eq, map, any_of,
}
use mathlib.Core.Path.{subst}
use smarttest_platform.Base.Text.{Text, text_eq}
use smarttest_platform.Base.Dict.{Dict, lookup, insert, found_after_insert}
use smarttest_platform.Protocol.{Uuid, SecretReference}
use smarttest_platform.Plan.Environments.{
  EncryptedSecret, ConfigurationValue, ConfigurationCategory, EnvironmentRecord,
}
use smarttest_platform.Secrets.Broker.{canonical_secret_references, ResolvedSecretValue}
use smarttest_platform.Environment.Resolver.{
  Identity, value_identity, reference_identity, category_text, is_available, available_values,
  open_value, active_revision, validated_record, resolve_each, resolve_secret_values,
}

-- Each value stands under its identity.
IsLabelled : Dict Identity ConfigurationValue → Type 0
IsLabelled d = (i : Identity) (v : ConfigurationValue) → lookup i d ≡ some v → value_identity v ≡ i

IsLabelled-insert :
    (v : ConfigurationValue) (d : Dict Identity ConfigurationValue)
    → IsLabelled d
    → IsLabelled (insert (value_identity v) v d)
unfolding IsLabelled
IsLabelled-insert v d h i w found = elim (found_after_insert (value_identity v) i v w d found) [
  | inl (same, is_w) ↦ sym (ap value_identity is_w) ∙ same
  | inr (other, before) ↦ h i w before
]

available_values-IsLabelled :
    (vs : List ConfigurationValue) (d : Dict Identity ConfigurationValue)
    → IsLabelled d
    → IsLabelled (available_values vs d)
unfolding available_values
available_values-IsLabelled [] d h = h
available_values-IsLabelled (v ∷ vs) d h = elim (Bool-cases (is_available v)) [
  | inl e ↦
      rw e
        (available_values-IsLabelled vs (insert (value_identity v) v d) (IsLabelled-insert v d h))
  | inr e ↦ rw e (available_values-IsLabelled vs d h)
]

nothing-IsLabelled : IsLabelled []
unfolding IsLabelled lookup
nothing-IsLabelled i v found = cc

abbrev pub resolved_identity : ResolvedSecretValue → Identity
resolved_identity x = (x.category, (x.name, some x.secret_ref))

module _ (decrypt : EncryptedSecret → Uuid → Uuid → ℕ → ConfigurationCategory → Text → Result Text)
    (get_revision : Uuid → ℕ → Result EnvironmentRecord) where
  resolve_each-identities :
      (r : EnvironmentRecord) (d : Dict Identity ConfigurationValue) (xs : List SecretReference)
      (resolved : List ResolvedSecretValue)
      → IsLabelled d
      → resolve_each decrypt get_revision r d xs ≡ ok resolved
      → map resolved_identity resolved ≡ map reference_identity xs
  unfolding resolve_each IsLabelled
  resolve_each-identities r d [] resolved h = λ e. ap (map resolved_identity) (sym (given [] e))
    where
      given : (xs : List ResolvedSecretValue) → ok xs ≡ ok resolved → xs ≡ resolved
      given xs e = cc
  resolve_each-identities r d (x ∷ xs) resolved h =
      elim (Option-cases (lookup (reference_identity x) d)) [
        | inl f ↦ rw f (λ e. cc)
        | inr (v, f) ↦ elim (Result-cases (open_value decrypt get_revision r v)) [
          | inr (y, g) ↦ rw (f, g) (λ e. cc)
          | inl (t, g) ↦ elim (Result-cases (resolve_each decrypt get_revision r d xs)) [
            | inr (y, k) ↦ rw (f, g, k) (λ e. cc)
            | inl (rest, k) ↦
                rw (f, g, k)
                  (λ e.
                    joined v rest _ refl (h (reference_identity x) v f)
                      (resolve_each-identities r d xs rest h k) e)
          ]
        ]
      ]
    where
      given : (ys : List ResolvedSecretValue) → ok ys ≡ ok resolved → ys ≡ resolved
      given ys e = cc

      joined :
          (v : ConfigurationValue) (rest : List ResolvedSecretValue) (y : ResolvedSecretValue)
          → resolved_identity y ≡ (category_text v.category, (v.name, some x.secret_ref))
          → value_identity v ≡ reference_identity x
          → map resolved_identity rest ≡ map reference_identity xs
          → ok (y ∷ rest) ≡ ok resolved
          → map resolved_identity resolved ≡ map reference_identity (x ∷ xs)
      joined v rest y is_v is_x more e =
          subst (λ zs. map resolved_identity zs ≡ map reference_identity (x ∷ xs))
            (given (y ∷ rest) e)
            (cc (more, is_v ∙ ap (λ (i : Identity). (i.0, (i.1.0, some x.secret_ref))) is_x))

  -- A call that resolves secrets and returns gives one value for each of the canonical references,
  -- in their order and under their category, name and identifier.
  pub resolve_secret_values_lem :
      (project_id environment_id : Uuid) (revision : ℕ) (references : List SecretReference)
      (resolved : List ResolvedSecretValue)
      → resolve_secret_values decrypt get_revision project_id environment_id revision references
        ≡ ok resolved
      → (canonical : List SecretReference) × (canonical_secret_references references ≡ ok canonical)
        × (map resolved_identity resolved ≡ map reference_identity canonical)
  unfolding resolve_secret_values validated_record
  resolve_secret_values_lem project_id environment_id revision references resolved =
      elim (Result-cases
        (active_revision decrypt get_revision project_id environment_id revision)) [
          | inr (x, e) ↦ rw e (λ h. cc)
          | inl (r, e) ↦ elim (Result-cases (canonical_secret_references references)) [
            | inr (x, f) ↦ rw (e, f) (λ h. cc)
            | inl (canonical, f) ↦
                let d = available_values r.values [] in
                elim (Bool-cases (
                  any_of (λ (x : SecretReference). not (is_some (lookup (reference_identity x) d)))
                    canonical)) [
                      | inl g ↦ rw (e, f, g) (λ h. cc)
                      | inr g ↦
                          rw (e, f, g)
                            (λ h. (
                              canonical,
                              refl,
                              resolve_each-identities r d canonical resolved
                                  (available_values-IsLabelled r.values [] nothing-IsLabelled) h,
                            ))
                    ]
          ]
        ]
