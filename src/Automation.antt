-- ===== src/Automation.antt =====
-- services/api/automation_domain.py and services/api/automation_repository.py: automation scripts
-- with kept revisions, and their links to test cases.
pub mod Records
pub mod Methods
pub mod History
