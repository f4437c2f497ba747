-- ===== src/Repository.antt =====
-- services/api/repository.py: the in-memory run repository. Each public method holds the lock for
-- its whole body, so a method is one step. `deepcopy` of an immutable record is the record.
-- A method takes the readings of the clock that it makes, by their number within the call, and
-- the result of `uuid4` where it draws one.
pub mod State
pub mod Runs
pub mod Attempts
pub mod Leases
pub mod Events
pub mod Artifacts
pub mod Writes
pub mod WellFormed
pub mod History
pub mod Refinement
pub mod Calls
pub mod Idempotency
pub mod Expiry
pub mod Begin
