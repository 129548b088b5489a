-- ===== src/Update.antt =====
-- src/update.rs: the signed update protocol, its ledger and the health mailbox.
pub mod Types
pub mod Host
pub mod Policy
pub mod Ledger
pub mod Steps
pub mod Reading
pub mod Mailbox
pub mod Transitions
pub mod Commands
pub mod Floor
pub mod History
pub mod Refusals
pub mod Fixtures
mod Examples
pub mod Verify
pub mod Trust
pub mod Artifact
pub mod Health
pub mod Heartbeat
mod Signed
pub mod Liveness
