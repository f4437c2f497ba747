-- ===== src/Dispatch/Calm.antt =====
-- Dispatchers that make no run CREATED; DatabaseRunDispatcher of services/api/dispatcher.py.
use smarttest_platform.Base.{
  true, false, some, ok, ◌≡◌, refl, sym, ap, ◌∙◌, Option-cases, Bool-cases, Result-cases, arith,
  inl, inr, nat_eq, Error,
}
use smarttest_platform.Base.Tests.{clash}
use smarttest_platform.Base.Exec.{state_bind_pure}
use smarttest_platform.Base.Dict.{lookup, found_after_insert}
use smarttest_platform.Protocol.{Uuid, Time}
use smarttest_platform.Domain.State.{RunState, run_allows, run_is, transition_run}
use smarttest_platform.Domain.Records.{RunRecord, run_with_state}
use smarttest_platform.Repository.State.{Clock, RunRepository, get_locked, put_run}
use smarttest_platform.Repository.Runs.{transition, get}
use smarttest_platform.Plan.InFlight.{IsKeyed, IsKeyed-put, fresh_run}
use smarttest_platform.Dispatch.Coordinator.{}
use smarttest_platform.Dispatch.{dispatch, lost_race}
use smarttest_platform.Manager.{rescue, is_invalid_transition}
use mathlib.Core.Path.{subst}
use smarttest_platform.Dispatch.{dispatch, lost_race, rescue}

-- Runs stay under their identifiers, and none becomes CREATED.
abbrev pub IsCalm : RunRepository → RunRepository → Type 0
IsCalm s s' =
    (IsKeyed s → IsKeyed s')
    × ((k : Uuid) → fresh_run (lookup k s'.runs) ≡ true → fresh_run (lookup k s.runs) ≡ true)

pub IsCalm-trans : (r s t : RunRepository) → IsCalm r s → IsCalm s t → IsCalm r t
IsCalm-trans r s t f g = (λ h. g.0 (f.0 h), λ k h. f.1 k (g.1 k h))

pub IsCalm-refl : (s : RunRepository) → IsCalm s s
IsCalm-refl s = (λ h. h, λ k h. h)

pub moved_run :
    (r r' : RunRecord) (t : RunState) (now : Time)
    → run_with_state r t now ≡ ok r'
    → (r'.id ≡ r.id) × (r'.state ≡ t)
unfolding run_with_state transition_run
moved_run r r' t now = elim (Bool-cases (run_allows r.state t)) [
  | inr e ↦ rw e (λ h. cc)
  | inl e ↦ rw e (λ h. ground arith)
]

put_run-IsCalm :
    (id : Uuid) (r r' : RunRecord) (s : RunRepository)
    → lookup id s.runs ≡ some r
    → r'.id ≡ r.id
    → run_is r'.state RunState.created ≡ false
    → IsCalm s (put_run id r' s)
put_run-IsCalm id r r' s found same past = (
  λ h. IsKeyed-put id r' s h (same ∙ h id r found),
  λ k f. elim (Option-cases (lookup k (put_run id r' s).runs)) [
    | inl e ↦ absurd (clash f (ap fresh_run e))
    | inr (q, e) ↦ elim (found_after_insert id k r' q s.runs e) [
      | inl (here, is_q) ↦ absurd (clash f (ap fresh_run (e ∙ ap some (sym is_q)) ∙ past))
      | inr (other, before) ↦ ap fresh_run (before ∙ sym e) ∙ f
    ]
  ],
)

-- A transition to another state than CREATED.
pub transition-IsCalm :
    (id : Uuid) (t : RunState) (clock : Clock) (s : RunRepository)
    → run_is t RunState.created ≡ false
    → IsCalm s (transition id t clock s).1
unfolding transition get_locked
transition-IsCalm id t clock s past = elim (Option-cases (lookup id s.runs)) [
  | inl e ↦ rw e (IsCalm-refl s)
  | inr (r, e) ↦ elim (Result-cases (run_with_state r t (clock 0))) [
    | inr (x, f) ↦ rw (e, f) (IsCalm-refl s)
    | inl (r', f) ↦
        let (same, moved) = moved_run r r' t (clock 0) f in
        rw (e, f)
          (put_run-IsCalm id r r' s e same (ap (λ x. run_is x RunState.created) moved ∙ past))
  ]
]

lost_race-state : (id : Uuid) (x : Error) (s : RunRepository) → (lost_race id x s).1 ≡ s
unfolding lost_race get get_locked
lost_race-state id x s = elim (Bool-cases (is_invalid_transition x)) [
  | inr e ↦ rw e refl
  | inl e ↦ elim (Option-cases (lookup id s.runs)) [
    | inl f ↦ rw (e, f) refl
    | inr (r, f) ↦ elim (Bool-cases (run_is r.state RunState.queued)) [
      | inl g ↦ rw (e, f, g) refl
      | inr g ↦ rw (e, f, g) refl
    ]
  ]
]

rescued :
    (id : Uuid) (clock : Clock) (s : RunRepository)
    → IsCalm s (rescue (transition id RunState.dispatching clock) (lost_race id) s).1
unfolding rescue
rescued id clock s = elim (Result-cases (transition id RunState.dispatching clock s).0) [
  | inl (r, e) ↦ rw e (transition-IsCalm id RunState.dispatching clock s refl)
  | inr (x, e) ↦
      rw (e, lost_race-state id x (transition id RunState.dispatching clock s).1)
        (transition-IsCalm id RunState.dispatching clock s refl)
]

-- DatabaseRunDispatcher is such a dispatcher.
pub dispatch-IsCalm :
    (id : Uuid) (clock : Clock) (s : RunRepository) → IsCalm s (dispatch id clock s).1
unfolding dispatch get lost_race rescue get_locked
dispatch-IsCalm id clock s = elim (Option-cases (lookup id s.runs)) [
  | inl e ↦ rw e (IsCalm-refl s)
  | inr (r, e) ↦ elim (Bool-cases (run_is r.state RunState.created)) [
    | inl c ↦ rw (e, c) (IsCalm-refl s)
    | inr c ↦ elim (Bool-cases (run_is r.state RunState.queued)) [
      | inr q ↦ rw (e, c, q) (IsCalm-refl s)
      | inl q ↦
          rw (e, c, q)
            (subst (IsCalm s)
              (sym (
                state_bind_pure (rescue (transition id RunState.dispatching clock) (lost_race id))
                  (λ (run : RunRecord). tt) s))
              (rescued id clock s))
    ]
  ]
]
