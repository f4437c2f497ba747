-- ===== src/LoadTests.antt =====
-- services/api/load_test_domain.py and services/api/load_test_repository.py.
pub mod Records
pub mod Settings
pub mod Methods
pub mod Runs
pub mod Active
pub mod Recovery
