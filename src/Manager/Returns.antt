-- ===== src/Manager/Returns.antt =====
-- What a step of services/runner_manager.py that returns has gone through.
use smarttest_platform.Base.{
  if◌then◌else◌, ◌>>=◌, refl, ok, ◌≡◌, Error, Bool, Result-cases, ◌⊎◌, raise_if, inl, err, false,
  inr, true,
}
use smarttest_platform.Repository.State.{RunRepository, Method}
use smarttest_platform.Manager.{rescue}

pub ok_same : {A : Type 0} (a b : A) → ok a ≡ ok b → a ≡ b
ok_same a b h = cc

module _ {A B : Type 0} where
  pub bind_returns :
      (m : Method A) (f : A → Method B) (s : RunRepository) (b : B)
      → ((m >>= f) s).0 ≡ ok b
      → (a : A) × ((m s).0 ≡ ok a) × ((f a (m s).1).0 ≡ ok b) × (((m >>= f) s).1 ≡ (f a (m s).1).1)
  bind_returns m f s b = elim (Result-cases (m s).0) [
    | inl (a, e) ↦ rw e (λ h. (a, refl, h, refl))
    | inr (x, e) ↦ rw e (λ h. cc)
  ]

module _ {A : Type 0} where
  pub rescue_returns :
      (m : Method A) (handler : Error → Method A) (s : RunRepository) (b : A)
      → (rescue m handler s).0 ≡ ok b
      → ((m s).0 ≡ ok b) × ((rescue m handler s).1 ≡ (m s).1)
        ⊎ ((e : Error) × ((m s).0 ≡ err e)
            × ((handler e (m s).1).0 ≡ ok b)
            × ((rescue m handler s).1 ≡ (handler e (m s).1).1))
  unfolding rescue
  rescue_returns m handler s b = elim (Result-cases (m s).0) [
    | inl (a, e) ↦ rw e (λ h. inl (h, refl))
    | inr (x, e) ↦ rw e (λ h. inr (x, refl, h, refl))
  ]

  pub if_returns :
      (c : Bool) (m n : Method A) (s : RunRepository) (b : A)
      → ((if c then m else n) s).0 ≡ ok b
      → (c ≡ true) × ((m s).0 ≡ ok b) × (((if c then m else n) s).1 ≡ (m s).1)
        ⊎ (c ≡ false) × ((n s).0 ≡ ok b) × (((if c then m else n) s).1 ≡ (n s).1)
  if_returns true m n s b h = inl (refl, h, refl)
  if_returns false m n s b h = inr (refl, h, refl)

pub raise_if_returns :
    (c : Bool) (e : Error) (s : RunRepository) (u : Unit {0})
    → (raise_if c e s).0 ≡ ok u
    → (c ≡ false) × ((raise_if c e s).1 ≡ s)
raise_if_returns true e s u h = cc
raise_if_returns false e s u h = (refl, refl)
