-- ===== src/Codec.antt =====
-- The text codecs of relay_transport.py and enrollment.py (`_encode`, `_decode`, `_device_id`) and
-- the regular expressions that identifiers must match.
pub mod Base64
pub mod Pattern
pub mod Time
