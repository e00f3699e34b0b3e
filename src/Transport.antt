-- ===== src/Transport.antt =====
-- relay_transport.py.
pub mod Config
pub mod Queue
pub mod Retry
pub mod Session
pub mod Sanitize
pub mod Frame
pub mod Link
pub mod Connector
