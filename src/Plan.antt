-- ===== src/Plan.antt =====
-- services/api/test_plan_domain.py and services/api/test_plan_repository.py: test plans, their
-- execution batches, and the runs that a batch may start.
pub mod Environments
pub mod Records
pub mod Normalize
pub mod Methods
pub mod Batches
pub mod InFlight
pub mod Claiming
pub mod Claims
