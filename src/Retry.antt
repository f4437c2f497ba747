-- ===== src/Retry.antt =====
-- services/retry_policy.py
pub mod Bounds
use smarttest_platform.Base.{
  ℕ, ◌-◌, ◌*◌, ◌^◌, ◌≡◌, Bool, true, false, not, ◌&&◌, Option, none, some, List, [], ◌∷◌, ◌++◌, map,
  min, leb, any_of, if◌then◌else◌,
}
use smarttest_platform.Base.Text.{Text, text, text_beq, upper}
use smarttest_platform.Protocol.{
  Engine, Request, HttpStep, TaskEnvelope, ResultEnvelope, ResultOutcome, engine_beq, outcome_beq,
  outcome_value,
}

pub record RetryDecision : Type 0 where
  pub should_retry : Bool
  pub delay_seconds : ℕ
  pub reason : Text

abbrev pub refuse : Text → RetryDecision
refuse reason = record { should_retry = false; delay_seconds = 0; reason = reason }

-- `str(request.get("method", "GET")).upper() if isinstance(request, Mapping) else ""`
unfoldable pub method_of : Request → Text
method_of (Request.mapping none) = text "GET"
method_of (Request.mapping (some method)) = upper method
method_of Request.not_a_mapping = []

-- task.parameters.get("request", {})
abbrev pub main_request : Option Request → Request
main_request none = Request.mapping none
main_request (some request) = request

abbrev pub step_requests : List HttpStep → List Request
step_requests [] = []
step_requests (step ∷ steps) = step.request ∷ step_requests steps

unfoldable pub requests : TaskEnvelope → List Request
requests task =
    main_request task.request
    ∷ (step_requests task.execution_policy.before_steps
        ++ step_requests task.execution_policy.after_steps)

-- {"GET", "HEAD", "OPTIONS", "TRACE", "PUT", "DELETE"}
unfoldable pub is_idempotent : Text → Bool
is_idempotent method =
    any_of (text_beq method)
      (text "GET" ∷ text "HEAD" ∷ text "OPTIONS" ∷ text "TRACE" ∷ text "PUT" ∷ text "DELETE" ∷ [])

-- not methods.issubset(...)
unfoldable pub has_non_idempotent : List Request → Bool
has_non_idempotent = any_of (λ request. not (is_idempotent (method_of request)))

unfoldable pub decide_retry : TaskEnvelope → ResultEnvelope → ℕ → RetryDecision
decide_retry task result attempt_number =
    let policy = task.execution_policy.retry in
    if leb policy.max_attempts attempt_number
    then refuse (text "max_attempts_reached")
    else if not (any_of (outcome_beq result.outcome) policy.retry_on)
    then refuse (text "outcome_not_retryable")
    else if engine_beq task.engine Engine.http
        && (not policy.allow_non_idempotent_http && has_non_idempotent (requests task))
    then refuse (text "non_idempotent_http")
    else (record {
      should_retry = true;
      delay_seconds =
          min (policy.backoff_seconds * 2 ^ (attempt_number - 1)) policy.max_backoff_seconds;
      reason = text "retryable_" ++ outcome_value result.outcome;
    })
