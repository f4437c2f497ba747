-- ===== src/Repository/Idempotency.antt =====
-- Repeated requests and events of services/api/repository.py, with any calls in between.
use smarttest_platform.Base.{
  ◌≡◌, refl, inl, inr, nat_eq, pair_eq, Option-cases, Bool-cases, Option, none, some, ◌==◌, ==_iff,
  true, false, arith, ok, err, ℕ, Bool, if◌then◌else◌, idempotency_conflict, ◌≢◌, ◌∙◌, sym,
}
use smarttest_platform.Base.Dict.{lookup, lookup-insert_self}
use smarttest_platform.Base.Text.{Text, text_beq, text_eq, text_beq_iff}
use smarttest_platform.Protocol.{Uuid, Json, Engine, EventEnvelope, engine_beq, engine_beq_iff}
use smarttest_platform.Domain.{RunRecord, AttemptRecord, EventRecord}
use smarttest_platform.Repository.State.{RunRepository, Clock}
use smarttest_platform.Repository.Runs.{
  create_locked, create_or_get, normal_key, fingerprint, new_run,
}
use smarttest_platform.Repository.Events.{append_event, event_matches, new_event}
use smarttest_platform.Repository.Calls.{Calls, Calls-Evolves}
use smarttest_platform.Repository.History.{Evolves}
use smarttest_platform.Repository.WellFormed.{WellFormed, Writes-WellFormed}
use smarttest_platform.Repository.Refinement.RunMethods.{create_or_get-Writes}

-- The event is stored as `e`, under its attempt and run.
abbrev Stored : RunRepository → EventEnvelope → EventRecord → Type 0
Stored t event e =
    (a : AttemptRecord) × (r : RunRecord) × (lookup event.attempt_id t.attempts ≡ some a)
    × ((a.run_id == event.run_id) ≡ true)
    × (lookup event.run_id t.runs ≡ some r)
    × (engine_beq r.engine event.engine ≡ true)
    × (lookup event.event_id t.events ≡ some e)
    × (event_matches e event ≡ true)

new_event_matches : (n : ℕ) (event : EventEnvelope) → event_matches (new_event n event) event ≡ true
unfolding event_matches
new_event_matches n event = ground (
  arith,
  (text_beq_iff event.payload event.payload).1 refl,
  (engine_beq_iff event.engine event.engine).1 refl,
  ==_iff event.run_id event.run_id,
)

append_event-Stored :
    (s : RunRepository) (event : EventEnvelope) (e : EventRecord)
    → (append_event event s).0 ≡ ok e
    → Stored (append_event event s).1 event e
unfolding append_event
append_event-Stored s event e = elim (Option-cases (lookup event.attempt_id s.attempts)) [
  | inl p ↦ rw p (λ h. cc)
  | inr (a, p) ↦ rw p (elim (Bool-cases (a.run_id == event.run_id)) [
    | inr other ↦ rw other (λ h. cc)
    | inl same ↦ rw same (elim (Option-cases (lookup event.run_id s.runs)) [
      | inl f ↦ rw f (λ h. cc)
      | inr (r, f) ↦ rw f (elim (Bool-cases (engine_beq r.engine event.engine)) [
        | inr other ↦ rw other (λ h. cc)
        | inl agrees ↦ rw agrees (elim (Option-cases (lookup event.event_id s.events)) [
          | inr (existing, g) ↦ rw g (elim (Bool-cases (event_matches existing event)) [
            | inl yes' ↦ rw yes' (λ h.
                let q : existing ≡ e = cc in (a, r, p, same, f, agrees, rw (← q) g, rw (← q) yes'))
            | inr no' ↦ rw no' (λ h. cc)
          ])
          | inl fresh ↦
              rw fresh
                (elim (Option-cases (lookup (event.attempt_id, event.seq) s.event_sequences)) [
                  | inr (k, taken) ↦ rw taken (λ h. cc)
                  | inl free ↦ rw free (λ h.
                      let q : new_event s.next_cursor event ≡ e = cc in
                      (
                        a,
                        r,
                        p,
                        same,
                        f,
                        agrees,
                        rw (← q) (lookup-insert_self event.event_id _ s.events),
                        rw (← q) (new_event_matches s.next_cursor event),
                      ))
                ])
        ])
      ])
    ])
  ])
]

append_event-Stored' :
    (t : RunRepository) (event : EventEnvelope) (e : EventRecord)
    → Stored t event e
    → append_event event t ≡ (ok e, t)
unfolding append_event
append_event-Stored' t event e (a, r, ha, sa, hr, sr, he, me) =
    rw ha (rw sa (rw hr (rw sr (rw he (rw me)))))

Stored-Evolves :
    {s t : RunRepository} (event : EventEnvelope) (e : EventRecord)
    → Evolves s t
    → Stored s event e
    → Stored t event e
Stored-Evolves event e later (a, r, ha, sa, hr, sr, he, me) =
    let (a', ha', la) = later.attempts event.attempt_id a ha in
    let (r', hr', lr) = later.runs event.run_id r hr in
    (a', r', ha', rw la.run_id sa, hr', rw lr.engine sr, later.events event.event_id e he, me)

-- An event that was accepted is accepted again after any calls, with the record that it was first
-- stored as, and storing it again changes nothing.
pub append_event_again :
    (sha256 : Text → Text) (s t : RunRepository) (event : EventEnvelope) (e : EventRecord)
    → WellFormed (append_event event s).1
    → (append_event event s).0 ≡ ok e
    → Calls sha256 (append_event event s).1 t
    → append_event event t ≡ (ok e, t)
append_event_again sha256 s t event e w accepted run = append_event-Stored' t event e (
    Stored-Evolves event e (Calls-Evolves sha256 (append_event event s).1 t w run)
      (append_event-Stored s event e accepted))

not_same : (a b : Text) → b ≢ a → text_beq a b ≡ false
not_same a b other = elim (Bool-cases (text_beq a b)) [
  | inl same ↦ absurd (other (sym ((text_beq_iff a b).0 same)))
  | inr no' ↦ no'
]

module _ (sha256 : Text → Text) where
  -- The key is remembered with the digest of the request and a run of that request.
  abbrev Remembered : RunRepository → Text → Engine → Json → Uuid → Type 0
  Remembered t key engine parameters k =
      (r : RunRecord) × (lookup key t.idempotency ≡ some (fingerprint sha256 engine parameters, k))
      × (lookup k t.runs ≡ some r)

  create_locked-Remembered :
      (s : RunRepository) (engine : Engine) (parameters : Json) (key : Text) (uuid : Uuid)
      (c : Clock) (r : RunRecord) (old : Bool)
      → WellFormed s
      → (create_locked sha256 engine parameters
          (some key)
          (fingerprint sha256 engine parameters)
          uuid
          c
          s).0
        ≡ ok (r, old)
      → Remembered
          (create_locked sha256 engine parameters
            (some key)
            (fingerprint sha256 engine parameters)
            uuid
            c
            s).1
          key
          engine
          parameters
          r.id
  unfolding create_locked
  create_locked-Remembered s engine parameters key uuid c r old w =
      let print = fingerprint sha256 engine parameters in
      elim (Option-cases (lookup key s.idempotency)) [
        | inl unused ↦ rw unused (λ h.
            let q : new_run uuid engine parameters (c 0) ≡ r = ground arith in
            (
              new_run uuid engine parameters (c 0),
              rw (← q) (lookup-insert_self key (print, uuid) s.idempotency),
              rw (← q) (lookup-insert_self uuid (new_run uuid engine parameters (c 0)) s.runs),
            ))
        | inr ((saved, k), e) ↦ rw e (elim (Bool-cases (text_beq saved print)) [
          | inr other ↦ rw other (λ h. cc)
          | inl same ↦ rw same (elim (Option-cases (lookup k s.runs)) [
            | inl missing ↦ rw missing (λ h. cc)
            | inr (r', found) ↦ rw found (λ h.
                let id : r.id ≡ k = ground (arith, w.run_ids k r' found) in
                let digest : saved ≡ print = (text_beq_iff saved print).0 same in
                (r', rw (id, e, digest), rw (id, found)))
          ])
        ])
      ]

  Remembered-Evolves :
      {s t : RunRepository} (key : Text) (engine : Engine) (parameters : Json) (k : Uuid)
      → Evolves s t
      → Remembered s key engine parameters k
      → Remembered t key engine parameters k
  Remembered-Evolves key engine parameters k later (r, saved, found) =
      let (r', found', _) = later.runs k r found in
      (r', later.keys key (fingerprint sha256 engine parameters, k) saved, found')

  create_or_get-Remembered :
      (s : RunRepository) (engine : Engine) (parameters : Json) (given : Option Text) (key : Text)
      (uuid : Uuid) (c : Clock) (r : RunRecord) (old : Bool)
      → WellFormed s
      → normal_key given ≡ some key
      → (create_or_get sha256 engine parameters given uuid c s).0 ≡ ok (r, old)
      → Remembered
          (create_or_get sha256 engine parameters given uuid c s).1
          key
          engine
          parameters
          r.id
  unfolding create_or_get
  create_or_get-Remembered s engine parameters given key uuid c r old w named =
      rw named (create_locked-Remembered s engine parameters key uuid c r old w)

  -- The answer to a request with a key that is remembered.
  replay_of :
      (t : RunRepository) (key : Text) (engine : Engine) (parameters : Json) (k : Uuid)
      (engine' : Engine) (parameters' : Json) (given : Option Text) (uuid : Uuid) (c : Clock)
      (m : Remembered t key engine parameters k)
      → normal_key given ≡ some key
      → create_or_get sha256 engine' parameters' given uuid c t ≡ (
          if text_beq
            (fingerprint sha256 engine parameters)
            (fingerprint sha256 engine' parameters')
          then (ok (m.0, true), t)
          else (err idempotency_conflict, t))
  unfolding create_or_get create_locked
  replay_of t key engine parameters k engine' parameters' given uuid c (r, saved, found) named =
      rw (named, saved)
        (elim (Bool-cases (
          text_beq (fingerprint sha256 engine parameters)
            (fingerprint sha256 engine' parameters'))) [
              | inl same ↦ rw same (rw found)
              | inr other ↦ rw other
            ])

  module _ (s t : RunRepository) (engine : Engine) (parameters : Json) (given : Option Text) where
    -- Once a request with a key has been answered, the same request (one with the same digest) with
    -- that key is answered after any calls with the run that was first created, marked as a replay,
    -- and creates nothing.
    pub create_or_get_again :
        (key : Text) (uuid : Uuid) (c : Clock) (r : RunRecord) (old : Bool)
        → WellFormed s
        → lookup uuid s.runs ≡ none
        → normal_key given ≡ some key
        → (create_or_get sha256 engine parameters given uuid c s).0 ≡ ok (r, old)
        → Calls sha256 (create_or_get sha256 engine parameters given uuid c s).1 t
        → (engine' : Engine) (parameters' : Json) (given' : Option Text) (uuid' : Uuid) (c' : Clock)
        → normal_key given' ≡ some key
        → fingerprint sha256 engine' parameters' ≡ fingerprint sha256 engine parameters
        → (r' : RunRecord) × (create_or_get sha256 engine' parameters' given' uuid' c' t
            ≡ (ok (r', true), t))
          × (lookup r.id t.runs ≡ some r')
    create_or_get_again key uuid c r old w fresh named first run engine' parameters' given' uuid' c'
          named' same =
        let w' =
          Writes-WellFormed (create_or_get-Writes sha256 s engine parameters given uuid c fresh)
            w in
        let m =
          Remembered-Evolves key engine parameters r.id
            (Calls-Evolves sha256 (create_or_get sha256 engine parameters given uuid c s).1 t w'
              run)
            (create_or_get-Remembered s engine parameters given key uuid c r old w named first) in
        (
          m.0,
          replay_of t key engine parameters r.id engine' parameters' given' uuid' c' m named'
              ∙ rw ((text_beq_iff _ _).1 (sym same)),
          m.2,
        )

    -- Once a request with a key has been answered, a request with that key and another digest is
    -- refused after any calls, and creates nothing.
    pub create_or_get_conflict :
        (key : Text) (uuid : Uuid) (c : Clock) (r : RunRecord) (old : Bool)
        → WellFormed s
        → lookup uuid s.runs ≡ none
        → normal_key given ≡ some key
        → (create_or_get sha256 engine parameters given uuid c s).0 ≡ ok (r, old)
        → Calls sha256 (create_or_get sha256 engine parameters given uuid c s).1 t
        → (engine' : Engine) (parameters' : Json) (given' : Option Text) (uuid' : Uuid) (c' : Clock)
        → normal_key given' ≡ some key
        → fingerprint sha256 engine' parameters' ≢ fingerprint sha256 engine parameters
        → create_or_get sha256 engine' parameters' given' uuid' c' t ≡ (err idempotency_conflict, t)
    create_or_get_conflict key uuid c r old w fresh named first run engine' parameters' given' uuid'
          c' named' other =
        let w' =
          Writes-WellFormed (create_or_get-Writes sha256 s engine parameters given uuid c fresh)
            w in
        let m =
          Remembered-Evolves key engine parameters r.id
            (Calls-Evolves sha256 (create_or_get sha256 engine parameters given uuid c s).1 t w'
              run)
            (create_or_get-Remembered s engine parameters given key uuid c r old w named first) in
        replay_of t key engine parameters r.id engine' parameters' given' uuid' c' m named'
        ∙ rw (
            not_same (fingerprint sha256 engine parameters) (fingerprint sha256 engine' parameters')
              other)
