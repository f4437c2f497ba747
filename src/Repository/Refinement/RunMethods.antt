-- ===== src/Repository/Refinement/RunMethods.antt =====
-- The methods of services/api/repository.py on runs are writes of Repository/Writes.
use smarttest_platform.Base.{
  ◌≡◌, inl, inr, nat_eq, Option-cases, Result-cases, Bool-cases, Option, none, some,
}
use smarttest_platform.Base.Dict.{lookup, lookup-insert_self}
use smarttest_platform.Protocol.{Uuid, Engine, Json}
use smarttest_platform.Domain.{RunState}
use smarttest_platform.Domain.Records.{run_with_state}
use smarttest_platform.Domain.Lifecycle.{run_with_state-RunStep}
use smarttest_platform.Repository.State.{Clock, RunRepository, put_run}
use smarttest_platform.Repository.Runs.{
  transition, cancel, insert_new, create_or_get, saved_request, normal_key, new_run, fingerprint,
  create_locked,
}
use smarttest_platform.Repository.Writes.{Write, Writes, one-Write}
use smarttest_platform.Domain.State.{run_terminal, run_is}
use smarttest_platform.Base.Text.{Text, text_beq}

pub transition-Writes :
    (s : RunRepository) (k : Uuid) (t : RunState) (c : Clock) → Writes s (transition k t c s).1
unfolding transition
transition-Writes s k t c = elim (Option-cases (lookup k s.runs)) [
  | inl e ↦ rw e Writes.here
  | inr (r, e) ↦ rw e (elim (Result-cases (run_with_state r t (c 0))) [
    | inl (r', f) ↦
        rw f (one-Write (Write.move_run s k r r' e (run_with_state-RunStep r t (c 0) f).0))
    | inr (x, f) ↦ rw f Writes.here
  ])
]

pub cancel-Writes : (s : RunRepository) (k : Uuid) (c : Clock) → Writes s (cancel k c s).1
unfolding cancel
cancel-Writes s k c = elim (Option-cases (lookup k s.runs)) [
  | inl e ↦ rw e Writes.here
  | inr (r, e) ↦ rw e (elim (Bool-cases (run_terminal r.state)) [
    | inl over ↦ rw over Writes.here
    | inr live ↦ rw live (elim (Bool-cases (run_is r.state RunState.cancelling)) [
      | inl already ↦ rw already Writes.here
      | inr other ↦ rw other (elim (Result-cases (run_with_state r RunState.cancelling (c 0))) [
        | inl (r', f) ↦ rw f (
            one-Write
              (Write.move_run s k r r' e (run_with_state-RunStep r RunState.cancelling (c 0) f).0))
        | inr (x, f) ↦ rw f Writes.here
      ])
    ])
  ])
]

-- The part of `create_or_get` for a run that is not there yet.
insert_new-Writes :
    (sha256 : Text → Text) (s : RunRepository) (engine : Engine) (parameters : Json)
    (key : Option Text) (print : Text) (uuid : Uuid) (c : Clock)
    → lookup uuid s.runs ≡ none
    → saved_request key s ≡ none
    → Writes s (insert_new sha256 engine parameters key print uuid c s).1
unfolding insert_new
insert_new-Writes sha256 s engine parameters none print uuid c free unused =
    one-Write (Write.add_run s (new_run uuid engine parameters (c 0)) free)
insert_new-Writes sha256 s engine parameters (some key) print uuid c free unused =
    let r = new_run uuid engine parameters (c 0) in
    Writes.next (one-Write (Write.add_run s r free))
      (Write.add_key (put_run uuid r s) key print uuid unused (rw lookup-insert_self))

pub create_or_get-Writes :
    (sha256 : Text → Text) (s : RunRepository) (engine : Engine) (parameters : Json)
    (idempotency_key : Option Text) (uuid : Uuid) (c : Clock)
    → lookup uuid s.runs ≡ none
    → Writes s (create_or_get sha256 engine parameters idempotency_key uuid c s).1
unfolding create_or_get create_locked
create_or_get-Writes sha256 s engine parameters idempotency_key uuid c free =
    let key = normal_key idempotency_key in
    let print = fingerprint sha256 engine parameters in
    elim (Option-cases (saved_request key s)) [
      | inl unused ↦
          rw unused (insert_new-Writes sha256 s engine parameters key print uuid c free unused)
      | inr ((saved, k), e) ↦ rw e (elim (Bool-cases (text_beq saved print)) [
        | inl same ↦ rw same (elim (Option-cases (lookup k s.runs)) [
          | inl missing ↦ rw missing Writes.here
          | inr (r, found) ↦ rw found Writes.here
        ])
        | inr other ↦ rw other Writes.here
      ])
    ]
