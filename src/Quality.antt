-- ===== src/Quality.antt =====
-- services/api/quality_domain.py and services/api/quality_repository.py: requirements, test cases
-- and the links between them, with optimistic versions and kept revisions.
pub mod Records
pub mod Methods
pub mod History
