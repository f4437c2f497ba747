-- ===== src/Domain/State.antt =====
-- The state machines of services/api/domain.py. A rule set is the test that it holds a pair.
use smarttest_platform.Base.{ℕ, Bool, true, false, Result, ok, err, if◌then◌else◌, ◌==◌}
use smarttest_platform.Base.Exec.{invalid_transition}

pub data RunState : Type 0 where
  created queued dispatching running retry_wait cancelling : RunState
  succeeded failed cancelled timed_out infra_error : RunState

pub data AttemptState : Type 0 where
  pending claimed preparing running collecting : AttemptState
  succeeded failed cancelled timed_out infra_error lost : AttemptState

-- `is RunState....`
abbrev pub run_index : RunState → ℕ
run_index RunState.created = 0
run_index RunState.queued = 1
run_index RunState.dispatching = 2
run_index RunState.running = 3
run_index RunState.retry_wait = 4
run_index RunState.cancelling = 5
run_index RunState.succeeded = 6
run_index RunState.failed = 7
run_index RunState.cancelled = 8
run_index RunState.timed_out = 9
run_index RunState.infra_error = 10

abbrev pub run_is : RunState → RunState → Bool
run_is s t = run_index s == run_index t

abbrev pub attempt_index : AttemptState → ℕ
attempt_index AttemptState.pending = 0
attempt_index AttemptState.claimed = 1
attempt_index AttemptState.preparing = 2
attempt_index AttemptState.running = 3
attempt_index AttemptState.collecting = 4
attempt_index AttemptState.succeeded = 5
attempt_index AttemptState.failed = 6
attempt_index AttemptState.cancelled = 7
attempt_index AttemptState.timed_out = 8
attempt_index AttemptState.infra_error = 9
attempt_index AttemptState.lost = 10

abbrev pub attempt_is : AttemptState → AttemptState → Bool
attempt_is s t = attempt_index s == attempt_index t

-- RUN_TERMINAL
abbrev pub run_terminal : RunState → Bool
run_terminal RunState.succeeded = true
run_terminal RunState.failed = true
run_terminal RunState.cancelled = true
run_terminal RunState.timed_out = true
run_terminal RunState.infra_error = true
run_terminal _ = false

-- ATTEMPT_TERMINAL
abbrev pub attempt_terminal : AttemptState → Bool
attempt_terminal AttemptState.succeeded = true
attempt_terminal AttemptState.failed = true
attempt_terminal AttemptState.cancelled = true
attempt_terminal AttemptState.timed_out = true
attempt_terminal AttemptState.infra_error = true
attempt_terminal AttemptState.lost = true
attempt_terminal _ = false

-- ATTEMPT_LEASED
abbrev pub attempt_leased : AttemptState → Bool
attempt_leased AttemptState.claimed = true
attempt_leased AttemptState.preparing = true
attempt_leased AttemptState.running = true
attempt_leased AttemptState.collecting = true
attempt_leased _ = false

-- RUN_TRANSITIONS
abbrev pub run_allows : RunState → RunState → Bool
run_allows RunState.created RunState.queued = true
run_allows RunState.created RunState.cancelling = true
run_allows RunState.queued RunState.dispatching = true
run_allows RunState.queued RunState.cancelling = true
run_allows RunState.queued RunState.failed = true
run_allows RunState.queued RunState.timed_out = true
run_allows RunState.queued RunState.infra_error = true
run_allows RunState.dispatching RunState.running = true
run_allows RunState.dispatching RunState.cancelling = true
run_allows RunState.dispatching RunState.failed = true
run_allows RunState.dispatching RunState.timed_out = true
run_allows RunState.dispatching RunState.infra_error = true
run_allows RunState.running RunState.cancelling = true
run_allows RunState.running RunState.succeeded = true
run_allows RunState.running RunState.failed = true
run_allows RunState.running RunState.timed_out = true
run_allows RunState.running RunState.infra_error = true
run_allows RunState.running RunState.retry_wait = true
run_allows RunState.retry_wait RunState.queued = true
run_allows RunState.retry_wait RunState.cancelling = true
run_allows RunState.retry_wait RunState.infra_error = true
run_allows RunState.cancelling RunState.cancelled = true
run_allows RunState.cancelling RunState.failed = true
run_allows RunState.cancelling RunState.timed_out = true
run_allows RunState.cancelling RunState.infra_error = true
run_allows _ _ = false

-- ATTEMPT_TRANSITIONS
abbrev pub attempt_allows : AttemptState → AttemptState → Bool
attempt_allows AttemptState.pending AttemptState.claimed = true
attempt_allows AttemptState.pending AttemptState.cancelled = true
attempt_allows AttemptState.claimed AttemptState.preparing = true
attempt_allows AttemptState.claimed AttemptState.cancelled = true
attempt_allows AttemptState.claimed AttemptState.infra_error = true
attempt_allows AttemptState.claimed AttemptState.lost = true
attempt_allows AttemptState.preparing AttemptState.running = true
attempt_allows AttemptState.preparing AttemptState.cancelled = true
attempt_allows AttemptState.preparing AttemptState.infra_error = true
attempt_allows AttemptState.preparing AttemptState.lost = true
attempt_allows AttemptState.running AttemptState.collecting = true
attempt_allows AttemptState.running AttemptState.cancelled = true
attempt_allows AttemptState.running AttemptState.failed = true
attempt_allows AttemptState.running AttemptState.timed_out = true
attempt_allows AttemptState.running AttemptState.infra_error = true
attempt_allows AttemptState.running AttemptState.lost = true
attempt_allows AttemptState.collecting target = attempt_terminal target
attempt_allows _ _ = false

-- Shut, so that proofs about the operations go through the lemmas of Lifecycle.
unfoldable pub transition_run : RunState → RunState → Result RunState
transition_run current target =
    if run_allows current target then ok target else err invalid_transition

unfoldable pub transition_attempt : AttemptState → AttemptState → Result AttemptState
transition_attempt current target =
    if attempt_allows current target then ok target else err invalid_transition
