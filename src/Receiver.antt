-- ===== src/Receiver.antt =====
-- relay_receiver.py: the relay's side. Its configuration, the local query interface, and the session
-- with an agent.
pub mod Config
pub mod Api
pub mod Envelope
pub mod Agent
pub mod Sessions
pub mod Publication
