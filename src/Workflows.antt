-- ===== src/Workflows.antt =====
-- services/api/data_factory_domain.py and services/api/data_factory_repository.py.
pub mod Methods
pub mod Names
pub mod Graphs
pub mod Visits
