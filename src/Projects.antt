-- ===== src/Projects.antt =====
-- services/api/project_domain.py and services/api/project_repository.py.
pub mod Methods
pub mod Names
