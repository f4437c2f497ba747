-- ===== src/Manager/Rules.antt =====
-- The ways in which the steps of services/runner_manager.py are put together, by the calls of the
-- repository that they make.
use smarttest_platform.Base.{
  Bool, true, false, Result, Error, pure, raise, raise_if, lift, ◌>>=◌, if◌then◌else◌, Result-cases,
  inl, inr,
}
use smarttest_platform.Base.Text.{Text}
use smarttest_platform.Repository.State.{RunRepository, Method}
use smarttest_platform.Repository.Calls.{Calls}
use smarttest_platform.Manager.{rescue}

module _ (sha256 : Text → Text) where
  pub Calls-trans : {s t u : RunRepository} → Calls sha256 s t → Calls sha256 t u → Calls sha256 s u
  Calls-trans w Calls.here = w
  Calls-trans w (Calls.next v c fresh) = Calls.next (Calls-trans w v) c fresh

  -- Whether it returns or raises, `m` leaves a store that calls of the repository lead to.
  pub record OnlyCalls {A : Type 0} (m : Method A) : Type 0 where
    pub at : (s : RunRepository) → Calls sha256 s (m s).1

  module _ {A : Type 0} where
    pub calls-pure : (a : A) → OnlyCalls (pure a)
    calls-pure a = record { at = λ s. Calls.here }

    pub calls-raise : (e : Error) → OnlyCalls {A = A} (raise e)
    calls-raise e = record { at = λ s. Calls.here }

    pub calls-lift : (r : Result A) → OnlyCalls (lift r)
    calls-lift r = record { at = λ s. Calls.here }

    pub calls-if :
        (b : Bool) (m n : Method A) → OnlyCalls m → OnlyCalls n → OnlyCalls (if b then m else n)
    calls-if true m n hm hn = hm
    calls-if false m n hm hn = hn

    pub calls-rescue :
        (m : Method A) (handler : Error → Method A)
        → OnlyCalls m
        → ((e : Error) → OnlyCalls (handler e))
        → OnlyCalls (rescue m handler)
    unfolding rescue
    calls-rescue m handler hm hh = record {
      at = λ s. elim (Result-cases (m s).0) [
        | inl (a, e) ↦ rw e (hm.at s)
        | inr (x, e) ↦ rw e (Calls-trans (hm.at s) ((hh x).at (m s).1))
      ];
    }

  pub calls-raise_if : (b : Bool) (e : Error) → OnlyCalls (raise_if b e)
  calls-raise_if true e = record { at = λ s. Calls.here }
  calls-raise_if false e = record { at = λ s. Calls.here }

  module _ {A B : Type 0} where
    pub calls-bind :
        (m : Method A) (f : A → Method B)
        → OnlyCalls m
        → ((a : A) → OnlyCalls (f a))
        → OnlyCalls (m >>= f)
    calls-bind m f hm hf = record {
      at = λ s. elim (Result-cases (m s).0) [
        | inl (a, e) ↦ rw e (Calls-trans (hm.at s) ((hf a).at (m s).1))
        | inr (x, e) ↦ rw e (hm.at s)
      ];
    }
