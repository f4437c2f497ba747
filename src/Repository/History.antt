-- ===== src/Repository/History.antt =====
-- What any number of writes to the store of services/api/repository.py leaves as it was.
pub mod Steps
use smarttest_platform.Base.{
  ◌≡◌, refl, ◌<◌, ◌≤◌, ◌⊎◌, inl, inr, some, nat_eq, pair_eq, false, arith, ◌∙◌, Bool-cases,
}
use smarttest_platform.Base.Dict.{lookup}
use smarttest_platform.Base.Text.{Text, text_eq}
use smarttest_platform.Protocol.{Uuid}
use smarttest_platform.Domain.{RunRecord, AttemptRecord, EventRecord, ArtifactRecord}
use smarttest_platform.Domain.State.{run_terminal, attempt_terminal}
use smarttest_platform.Domain.Lifecycle.{
  RunStep, AttemptStep, terminal_stuck, attempt_terminal_stuck,
}
use smarttest_platform.Repository.State.{RunRepository}

-- A later record of one run: the same request; unchanged, or the run had not ended and the version
-- has grown.
pub record RunLater (r r' : RunRecord) : Type 0 where
  pub id : r'.id ≡ r.id
  pub engine : r'.engine ≡ r.engine
  pub parameters : r'.parameters ≡ r.parameters
  pub created_at : r'.created_at ≡ r.created_at
  pub change : (r' ≡ r) ⊎ ((run_terminal r.state ≡ false) × (r.state_version < r'.state_version))

-- A later record of one attempt: unchanged, or the attempt had not ended.
pub record AttemptLater (a a' : AttemptRecord) : Type 0 where
  pub id : a'.id ≡ a.id
  pub run_id : a'.run_id ≡ a.run_id
  pub created_at : a'.created_at ≡ a.created_at
  pub version : a.state_version ≤ a'.state_version
  pub change : (a' ≡ a) ⊎ (attempt_terminal a.state ≡ false)

pub record Evolves (s t : RunRepository) : Type 0 where
  pub runs :
      (k : Uuid) (r : RunRecord)
      → lookup k s.runs ≡ some r
      → (r' : RunRecord) × (lookup k t.runs ≡ some r') × RunLater r r'
  pub attempts :
      (k : Uuid) (a : AttemptRecord)
      → lookup k s.attempts ≡ some a
      → (a' : AttemptRecord) × (lookup k t.attempts ≡ some a') × AttemptLater a a'
  pub keys :
      (key : Text) (v : Text × Uuid)
      → lookup key s.idempotency ≡ some v
      → lookup key t.idempotency ≡ some v
  pub events :
      (k : Uuid) (e : EventRecord) → lookup k s.events ≡ some e → lookup k t.events ≡ some e
  pub artifacts :
      (k : Uuid) (x : ArtifactRecord)
      → lookup k s.artifacts ≡ some x
      → lookup k t.artifacts ≡ some x
  pub cursor : s.next_cursor ≤ t.next_cursor
  -- A new event stands behind every event that was there.
  pub new_events :
      (k : Uuid) (e : EventRecord)
      → lookup k t.events ≡ some e
      → (lookup k s.events ≡ some e) ⊎ (s.next_cursor ≤ e.cursor)

pub RunLater-refl : (r : RunRecord) → RunLater r r
RunLater-refl r = record {
  id = refl;
  engine = refl;
  parameters = refl;
  created_at = refl;
  change = inl refl;
}

RunLater-trans : (r r' r'' : RunRecord) → RunLater r r' → RunLater r' r'' → RunLater r r''
RunLater-trans r r' r'' h k = record {
  id = k.id ∙ h.id;
  engine = k.engine ∙ h.engine;
  parameters = k.parameters ∙ h.parameters;
  created_at = k.created_at ∙ h.created_at;
  change = later h.change k.change;
}
  where
    later :
        (r' ≡ r) ⊎ ((run_terminal r.state ≡ false) × (r.state_version < r'.state_version))
        → (r'' ≡ r') ⊎ ((run_terminal r'.state ≡ false) × (r'.state_version < r''.state_version))
        → (r'' ≡ r) ⊎ ((run_terminal r.state ≡ false) × (r.state_version < r''.state_version))
    later (inl e) (inl f) = inl (f ∙ e)
    later (inl e) (inr c) = inr (rw (← e) c)
    later (inr c) (inl f) = inr (c.0, rw f c.1)
    later (inr c) (inr d) = inr (c.0, omega arith)

pub AttemptLater-refl : (a : AttemptRecord) → AttemptLater a a
AttemptLater-refl a = record {
  id = refl;
  run_id = refl;
  created_at = refl;
  version = omega arith;
  change = inl refl;
}

AttemptLater-trans :
    (a a' a'' : AttemptRecord) → AttemptLater a a' → AttemptLater a' a'' → AttemptLater a a''
AttemptLater-trans a a' a'' h k = record {
  id = k.id ∙ h.id;
  run_id = k.run_id ∙ h.run_id;
  created_at = k.created_at ∙ h.created_at;
  version = omega (arith, h.version, k.version);
  change = later h.change k.change;
}
  where
    later :
        (a' ≡ a) ⊎ (attempt_terminal a.state ≡ false)
        → (a'' ≡ a') ⊎ (attempt_terminal a'.state ≡ false)
        → (a'' ≡ a) ⊎ (attempt_terminal a.state ≡ false)
    later (inl e) (inl f) = inl (f ∙ e)
    later (inl e) (inr c) = inr (rw (← e) c)
    later (inr c) _ = inr c

pub Evolves-refl : (s : RunRepository) → Evolves s s
Evolves-refl s = record {
  runs = λ k r h. (r, h, RunLater-refl r);
  attempts = λ k a h. (a, h, AttemptLater-refl a);
  keys = λ key v h. h;
  events = λ k e h. h;
  artifacts = λ k x h. h;
  cursor = omega arith;
  new_events = λ k e h. inl h;
}

pub Evolves-trans : {s t u : RunRepository} → Evolves s t → Evolves t u → Evolves s u
Evolves-trans h g = record {
  runs = λ k r found.
      let (r', found', l) = h.runs k r found in
      let (r'', found'', m) = g.runs k r' found' in (r'', found'', RunLater-trans r r' r'' l m);
  attempts = λ k a found.
      let (a', found', l) = h.attempts k a found in
      let (a'', found'', m) = g.attempts k a' found' in
      (a'', found'', AttemptLater-trans a a' a'' l m);
  keys = λ key v found. g.keys key v (h.keys key v found);
  events = λ k e found. g.events k e (h.events k e found);
  artifacts = λ k x found. g.artifacts k x (h.artifacts k x found);
  cursor = omega (arith, h.cursor, g.cursor);
  new_events = λ k e found. elim (g.new_events k e found) [
    | inl old ↦ h.new_events k e old
    | inr above ↦ inr (omega (arith, h.cursor))
  ];
}

pub RunStep-later : {r r' : RunRecord} → RunStep r r' → RunLater r r'
RunStep-later {r} {r'} step = record {
  id = step.id;
  engine = step.engine;
  parameters = step.parameters;
  created_at = step.created_at;
  change = elim (Bool-cases (run_terminal r.state)) [
    | inl over ↦ absurd (cc (step.allowed, terminal_stuck r.state r'.state over))
    | inr open' ↦ inr (open', omega (arith, step.version))
  ];
}

pub AttemptStep-later : {a a' : AttemptRecord} → AttemptStep a a' → AttemptLater a a'
AttemptStep-later {a} {a'} (AttemptStep.moved same allowed version) = record {
  id = same.id;
  run_id = same.run_id;
  created_at = same.created_at;
  version = omega arith;
  change = elim (Bool-cases (attempt_terminal a.state)) [
    | inl over ↦ absurd (cc (allowed, attempt_terminal_stuck a.state a'.state over))
    | inr going ↦ inr going
  ];
}
AttemptStep-later {a} {a'} (AttemptStep.renewed same leased state version) = record {
  id = same.id;
  run_id = same.run_id;
  created_at = same.created_at;
  version = omega arith;
  change = inr (ground (arith));
}
