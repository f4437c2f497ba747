-- ===== src/Connectors.antt =====
-- services/api/connector_domain.py and services/api/connector_repository.py.
pub mod Methods
pub mod Credentials
