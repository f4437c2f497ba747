-- ===== src/Repository/Refinement.antt =====
-- The methods of services/api/repository.py against the abstract store of Repository/Writes.
pub mod RunMethods
pub mod AttemptMethods
pub mod Sweep
pub mod StoreMethods
