-- ===== src/Auth.antt =====
-- services/api/auth_domain.py, services/api/auth_repository.py and services/api/auth_throttle.py.
pub mod Passwords
pub mod Methods
pub mod Sessions
pub mod Throttle
pub mod Window
