-- ===== src/Configuration.antt =====
-- relay_configuration.py: the manager of a relay's directory.
pub mod Directory
pub mod Load
pub mod Save
pub mod Request
pub mod Receipt
pub mod Manage
pub mod Initialize
pub mod Command
pub mod Consistent
pub mod Invariant
pub mod Runs
pub mod Removal
pub mod Once
pub mod Proof
pub mod Accepted
pub mod Fresh
