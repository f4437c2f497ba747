-- ===== src/Environment.antt =====
-- services/api/environment_repository.py, on the records of services/api/environment_domain.py.
pub mod Inputs
pub mod Methods
pub mod Resolver
pub mod Names
pub mod Resolved
