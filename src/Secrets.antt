-- ===== src/Secrets.antt =====
-- services/secret_broker.py: single-use capabilities for the secrets of one attempt.
pub mod Grants
pub mod Broker
pub mod Redeemed
pub mod Use
pub mod Revocation
