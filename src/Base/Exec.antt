-- ===== src/Base/Exec.antt =====
-- Methods that change an object and may raise. What was written before a raise stays written, so
-- the state comes back beside the error too. `Error` has a constructor for each exception class
-- that the modelled code raises or catches.
use mathlib.Core.Path.{◌≡◌, refl}
use mathlib.Core.Logic.{◌⊎◌, inl, inr}
use mathlib.Core.Bool.{Bool, true, false}
use mathlib.Core.Option.{Option, none, some}

pub data Error : Type 0 where
  value_error key_error invalid_transition run_not_found idempotency_conflict : Error
  terminal_run_conflict attempt_not_found attempt_conflict event_conflict : Error
  artifact_not_found artifact_conflict runner_identity_error : Error
  test_plan_not_found run_spec_not_found test_plan_conflict test_plan_version_conflict : Error
  invalid_test_plan_transition capability_rejected login_rate_limited : Error
  requirement_not_found test_case_not_found asset_version_conflict trace_link_conflict : Error
  invalid_asset_transition script_not_found script_link_conflict : Error
  environment_not_found environment_conflict environment_version_conflict : Error
  invalid_environment_transition external_error : Error
  invalid_project_transition project_not_found project_name_conflict project_version_conflict :
      Error
  parameter_enum_not_found parameter_enum_conflict parameter_enum_version_conflict : Error
  script_parameter_conflict connector_not_found connector_name_conflict : Error
  connector_version_conflict connector_credential_required : Error
  workflow_not_found workflow_conflict workflow_name_conflict workflow_version_conflict : Error
  workflow_validation_error load_test_not_found load_test_run_not_found : Error
  load_test_name_conflict load_test_version_conflict load_test_active_run_conflict : Error
  auth_already_initialized username_conflict secret_encryption_error : Error

pub data Result {ℓ} (A : Type ℓ) : Type ℓ where
  ok : A → Result A
  err : Error → Result A

abbrev pub Action {ℓ κ} : Type ℓ → Type κ → Type (ℓ ⊔ κ)
Action S A = S → Result A × S

module _ {ℓ κ} {S : Type ℓ} {A : Type κ} where
  abbrev pub pure : A → Action S A
  pure a s = (ok a, s)

  abbrev pub raise : Error → Action S A
  raise e s = (err e, s)

  -- A computation that neither reads nor writes the state.
  abbrev pub lift : Result A → Action S A
  lift r s = (r, s)

  abbrev pub gets : (S → A) → Action S A
  gets f s = (ok (f s), s)

  -- `d[k]` with the exception that its KeyError is turned into.
  abbrev pub or_raise : Option A → Error → Action S A
  or_raise none e s = (err e, s)
  or_raise (some a) e s = (ok a, s)

module _ {ℓ} {S : Type ℓ} where
  abbrev pub modify : (S → S) → Action S (Unit {0})
  modify f s = (ok tt, f s)

  abbrev pub raise_if : Bool → Error → Action S (Unit {0})
  raise_if true e s = (err e, s)
  raise_if false e s = (ok tt, s)

module _ {ℓ κ μ} {S : Type ℓ} {A : Type κ} {B : Type μ} where
  abbrev pub continue : Result A → (A → Action S B) → Action S B
  continue (ok a) f s = f a s
  continue (err e) f s = (err e, s)

  infixl 5 ◌>>=◌
  abbrev pub ◌>>=◌ : Action S A → (A → Action S B) → Action S B
  ◌>>=◌ m f s = let (r, s') = m s in continue r f s'

module _ {ℓ μ} {S : Type ℓ} {B : Type μ} where
  infixl 5 ◌>>◌
  abbrev pub ◌>>◌ : Action S (Unit {0}) → Action S B → Action S B
  m >> n = m >>= λ _. n

-- The chain of pure computations that may raise.
abbrev pub bind {ℓ κ} : {A : Type ℓ} {B : Type κ} → Result A → (A → Result B) → Result B
bind (ok a) f = f a
bind (err e) f = err e

abbrev pub check : Bool → Error → Result (Unit {0})
check true e = err e
check false e = ok tt

pub Result-cases {ℓ} :
    {A : Type ℓ} (r : Result A) → ((a : A) × (r ≡ ok a)) ⊎ ((e : Error) × (r ≡ err e))
Result-cases (ok a) = inl (a, refl)
Result-cases (err e) = inr (e, refl)

-- A last step that only returns leaves the state.
pub state_bind_pure {ℓ κ μ} :
    {S : Type ℓ} {A : Type κ} {B : Type μ} (m : Action S A) (f : A → B) (s : S)
    → ((m >>= λ a. pure (f a)) s).1 ≡ (m s).1
state_bind_pure m f s = elim (Result-cases (m s).0) [ inl (a, e) ↦ rw e | inr (x, e) ↦ rw e ]
