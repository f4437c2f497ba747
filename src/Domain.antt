-- ===== src/Domain.antt =====
-- services/api/domain.py: the states, their transitions and the records of runs and attempts.
pub mod State
pub mod Records
pub mod Lifecycle
pub use State.{RunState, AttemptState}
pub use Records.{RunRecord, AttemptRecord, EventRecord, ArtifactRecord}
