-- ===== src/Services.antt =====
-- src/services: security policies, secure channels and sessions.
pub mod Memstore
pub mod Policy
pub mod SecureChannel
pub mod Session
mod Tests
