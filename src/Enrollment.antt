-- ===== src/Enrollment.antt =====
-- enrollment.py.
pub mod Types
pub mod Keys
pub mod Challenge
pub mod Store
pub mod Signed
pub mod Operations
pub mod Request
pub mod Complete
pub mod Verify
pub mod Frames
pub mod Replay
pub mod Receipts
pub mod Pairings
pub mod Redeem
