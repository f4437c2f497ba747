-- ===== src/Parameters.antt =====
-- services/api/parameter_domain.py and services/api/parameter_repository.py.
pub mod Records
pub mod Methods
pub mod Typed
pub mod Backed
pub mod Defaults
