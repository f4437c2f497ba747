-- ===== src/Retry/Bounds.antt =====
-- When services/retry_policy.py retries, and after how long.
use smarttest_platform.Base.{
  ℕ, ◌-◌, ◌*◌, ◌^◌, ◌≡◌, ◌≤◌, ◌<◌, ◌↔◌, ◌⊎◌, true, false, min, any_of, arith, Bool-cases, leb, inl,
  inr, List, Option, Bool, All, ◌∷◌, some, [], clash, none, refl, ◌++◌,
}
use native.Mathlib.Nat.{pow-le-pow_right}
use smarttest_platform.Protocol.{
  Engine, TaskEnvelope, ResultEnvelope, outcome_beq, engine_beq, Request, ResultOutcome, HttpStep,
}
use smarttest_platform.Retry.{
  decide_retry, requests, has_non_idempotent, Text, is_idempotent, method_of, text, main_request,
  step_requests,
}
use smarttest_platform.Base.Text.{text_beq_iff, upper, text_beq}

-- An element of a list.
abbrev pub OneOf : {A : Type 0} → A → List A → Type 0
OneOf a [] = ⊥
OneOf a (x ∷ xs) = (a ≡ x) ⊎ OneOf a xs

-- The methods of HTTP that are idempotent.
abbrev pub IsIdempotent : Text → Type 0
IsIdempotent method =
    OneOf method
      (text "GET" ∷ text "HEAD" ∷ text "OPTIONS" ∷ text "TRACE" ∷ text "PUT" ∷ text "DELETE" ∷ [])

-- A mapping whose method is idempotent in upper case; a missing method is GET.
abbrev pub IsSafe : Request → Type 0
IsSafe (Request.mapping none) = Unit
IsSafe (Request.mapping (some method)) = IsIdempotent (upper method)
IsSafe Request.not_a_mapping = ⊥

-- A task without a request sends GET.
abbrev pub IsSafeMain : Option Request → Type 0
IsSafeMain none = Unit
IsSafeMain (some request) = IsSafe request

any_of-OneOf :
    {A : Type 0} (beq : A → A → Bool)
    → ((a b : A) → (beq a b ≡ true) ↔ (a ≡ b))
    → (a : A) (xs : List A) → (any_of (beq a) xs ≡ true) ↔ OneOf a xs
any_of-OneOf beq beq_iff a [] = (λ h. cc, λ h. absurd h)
any_of-OneOf beq beq_iff a (x ∷ xs) = elim (Bool-cases (beq a x)) [
  | inl e ↦ rw e (λ h. inl ((beq_iff a x).0 e), λ h. refl)
  | inr e ↦ rw e (
    λ h. inr ((any_of-OneOf beq beq_iff a xs).0 h),
    λ h. elim h [
      | inl same ↦ clash ((beq_iff a x).1 same) e
      | inr later ↦ (any_of-OneOf beq beq_iff a xs).1 later
    ],
  )
]

outcome_beq_iff : (a b : ResultOutcome) → (outcome_beq a b ≡ true) ↔ (a ≡ b)
outcome_beq_iff ResultOutcome.succeeded ResultOutcome.succeeded = (λ h. refl, λ h. refl)
outcome_beq_iff ResultOutcome.failed ResultOutcome.failed = (λ h. refl, λ h. refl)
outcome_beq_iff ResultOutcome.cancelled ResultOutcome.cancelled = (λ h. refl, λ h. refl)
outcome_beq_iff ResultOutcome.timed_out ResultOutcome.timed_out = (λ h. refl, λ h. refl)
outcome_beq_iff ResultOutcome.infra_error ResultOutcome.infra_error = (λ h. refl, λ h. refl)
outcome_beq_iff _ _ = (λ h. cc, λ h. cc)

is_idempotent-IsIdempotent : (method : Text) → (is_idempotent method ≡ true) ↔ IsIdempotent method
unfolding is_idempotent
is_idempotent-IsIdempotent method =
    any_of-OneOf text_beq text_beq_iff method
      (text "GET" ∷ text "HEAD" ∷ text "OPTIONS" ∷ text "TRACE" ∷ text "PUT" ∷ text "DELETE" ∷ [])

method_of-IsSafe : (request : Request) → (is_idempotent (method_of request) ≡ true) ↔ IsSafe request
unfolding method_of is_idempotent text_beq
method_of-IsSafe (Request.mapping none) =
    (λ h. tt, λ h. (is_idempotent-IsIdempotent (text "GET")).1 (inl refl))
method_of-IsSafe (Request.mapping (some method)) = is_idempotent-IsIdempotent (upper method)
method_of-IsSafe Request.not_a_mapping = (λ h. clash h refl, λ h. absurd h)

has_non_idempotent-IsSafe : (rs : List Request) → (has_non_idempotent rs ≡ false) ↔ All IsSafe rs
unfolding has_non_idempotent
has_non_idempotent-IsSafe [] = (λ h. tt, λ h. refl)
has_non_idempotent-IsSafe (r ∷ rs) = elim (Bool-cases (is_idempotent (method_of r))) [
  | inl e ↦ rw e (
    λ h. ((method_of-IsSafe r).0 e, (has_non_idempotent-IsSafe rs).0 h),
    λ h. (has_non_idempotent-IsSafe rs).1 h.1,
  )
  | inr e ↦ rw e (λ h. cc, λ h. clash ((method_of-IsSafe r).1 h.0) e)
]

step_requests-IsSafe :
    (before after : List HttpStep)
    → All IsSafe (step_requests before ++ step_requests after) ↔ (
        All (λ (step : HttpStep). IsSafe step.request) before
        × All (λ (step : HttpStep). IsSafe step.request) after)
step_requests-IsSafe [] [] = (λ h. (tt, tt), λ h. tt)
step_requests-IsSafe [] (step ∷ after) = (
  λ h. (tt, (h.0, ((step_requests-IsSafe [] after).0 h.1).1)),
  λ h. (h.1.0, (step_requests-IsSafe [] after).1 (tt, h.1.1)),
)
step_requests-IsSafe (step ∷ before) after =
    let (split, join) = step_requests-IsSafe before after in
    (λ h. ((h.0, (split h.1).0), (split h.1).1), λ h. (h.0.0, join (h.0.1, h.1)))

main_request-IsSafeMain : (o : Option Request) → IsSafe (main_request o) ↔ IsSafeMain o
main_request-IsSafeMain none = (λ h. h, λ h. h)
main_request-IsSafeMain (some request) = (λ h. h, λ h. h)

requests_iff :
    (task : TaskEnvelope)
    → (has_non_idempotent (requests task) ≡ false) ↔ (
        IsSafeMain task.request
        × All (λ (step : HttpStep). IsSafe step.request) task.execution_policy.before_steps
        × All (λ (step : HttpStep). IsSafe step.request) task.execution_policy.after_steps)
unfolding requests
requests_iff task =
    let steps =
      step_requests-IsSafe task.execution_policy.before_steps task.execution_policy.after_steps in
    let all = has_non_idempotent-IsSafe (requests task) in
    let main = main_request-IsSafeMain task.request in
    (
      λ h. let (before, after) = steps.0 (all.0 h).1 in (main.0 (all.0 h).0, before, after),
      λ h. let (first, before, after) = h in all.1 (main.1 first, steps.1 (before, after)),
    )

other_engine :
    (engine : Engine)
    → (engine_beq engine Engine.http ≡ false)
      ↔ ((engine ≡ Engine.pytest) ⊎ (engine ≡ Engine.playwright))
other_engine Engine.http = (λ h. cc, λ h. elim h [ inl e ↦ cc | inr e ↦ cc ])
other_engine Engine.pytest = (λ h. inl refl, λ h. refl)
other_engine Engine.playwright = (λ h. inr refl, λ h. refl)

decided :
    (task : TaskEnvelope) (result : ResultEnvelope) (n : ℕ)
    → let policy = task.execution_policy.retry in
      ((decide_retry task result n).should_retry ≡ true) ↔ (
        (n < policy.max_attempts)
        × (any_of (outcome_beq result.outcome) policy.retry_on ≡ true)
        × ((engine_beq task.engine Engine.http ≡ false)
            ⊎ (policy.allow_non_idempotent_http ≡ true)
            ⊎ (has_non_idempotent (requests task) ≡ false)))
unfolding decide_retry
decided task result n = (λ h. ground arith, λ h. ground arith)

-- A retry is decided exactly when an attempt is left, the outcome is one of the policy's, and
-- the task is a pytest or a playwright task, or its policy allows requests that are not
-- idempotent, or its request and that of each step before and after it is a mapping whose
-- method, in upper case and GET if it is missing, is one of GET, HEAD, OPTIONS, TRACE, PUT and
-- DELETE. A task without a request counts as one with GET.
pub decide_retry_iff :
    (task : TaskEnvelope) (result : ResultEnvelope) (n : ℕ)
    → let policy = task.execution_policy.retry in
      ((decide_retry task result n).should_retry ≡ true) ↔ (
        (n < policy.max_attempts)
        × OneOf result.outcome policy.retry_on
        × ((task.engine ≡ Engine.pytest)
            ⊎ (task.engine ≡ Engine.playwright)
            ⊎ (policy.allow_non_idempotent_http ≡ true)
            ⊎ (IsSafeMain task.request
                × All (λ (step : HttpStep). IsSafe step.request) task.execution_policy.before_steps
                × All
                    (λ (step : HttpStep). IsSafe step.request)
                    task.execution_policy.after_steps)))
decide_retry_iff task result n =
    let policy = task.execution_policy.retry in
    let (to, from) = decided task result n in
    let listed = any_of-OneOf outcome_beq outcome_beq_iff result.outcome policy.retry_on in
    let other = other_engine task.engine in
    let safe = requests_iff task in
    (
      λ h.
          let (left, wanted, why) = to h in
          (
            left,
            listed.0 wanted,
            elim why [
              | inl e ↦ elim (other.0 e) [ inl p ↦ inl p | inr p ↦ inr (inl p) ]
              | inr (inl allowed) ↦ inr (inr (inl allowed))
              | inr (inr idempotent) ↦ inr (inr (inr (safe.0 idempotent)))
            ],
          ),
      λ h.
          let (left, wanted, why) = h in
          from (
            left,
            listed.1 wanted,
            elim why [
              | inl p ↦ inl (other.1 (inl p))
              | inr (inl p) ↦ inl (other.1 (inr p))
              | inr (inr (inl allowed)) ↦ inr (inl allowed)
              | inr (inr (inr each)) ↦ inr (inr (safe.1 each))
            ],
          ),
    )

min_mono : (b p q top : ℕ) → p ≤ q → min (b * p) top ≤ min (b * q) top
min_mono b p q top h = grind arith

first_delay : (b top m : ℕ) → m ≤ 1 → min (b * 2 ^ (m - 1)) top ≡ min b top
first_delay b top m h = rw zero_exponent (omega arith)
  where
    zero_exponent : m - 1 ≡ 0
    zero_exponent = omega arith

small_or : (m b top : ℕ) → (1 < m) ⊎ (min (b * 2 ^ (m - 1)) top ≡ min b top)
small_or m b top = elim (Bool-cases (leb m 1)) [
  | inl h ↦ inr (first_delay b top m (ground arith))
  | inr h ↦ inl (ground arith)
]

pow_le : (m n : ℕ) → m ≤ n → 2 ^ m ≤ 2 ^ n
pow_le m n h = pow-le-pow_right (omega arith) h

delay_lem :
    (task : TaskEnvelope) (result : ResultEnvelope) (n : ℕ)
    → (decide_retry task result n).should_retry ≡ true
    → (decide_retry task result n).delay_seconds
      ≡ min
          (task.execution_policy.retry.backoff_seconds * 2 ^ (n - 1))
          task.execution_policy.retry.max_backoff_seconds
unfolding decide_retry
delay_lem task result n h = ground arith

-- Among retries the delay is never above the policy's maximum, never falls from one attempt number
-- to a larger one, and is the base delay, or the maximum if that is smaller, up to the first.
pub decide_retry_delay :
    (task : TaskEnvelope) (result : ResultEnvelope) (m n : ℕ)
    → (decide_retry task result m).should_retry ≡ true
    → (decide_retry task result n).should_retry ≡ true
    → m ≤ n
    → let policy = task.execution_policy.retry in
      ((decide_retry task result n).delay_seconds ≤ policy.max_backoff_seconds)
      × ((decide_retry task result m).delay_seconds ≤ (decide_retry task result n).delay_seconds)
      × ((1 < m)
          ⊎ ((decide_retry task result m).delay_seconds
              ≡ min policy.backoff_seconds policy.max_backoff_seconds))
decide_retry_delay task result m n hm hn le =
    let b = task.execution_policy.retry.backoff_seconds in
    rw (delay_lem task result m hm, delay_lem task result n hn)
      (omega arith, min_mono b _ _ _ (pow_le (m - 1) (n - 1) (omega arith)), small_or m b _)
