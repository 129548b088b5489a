-- ===== src/Native.antt =====
-- src/native_update.rs: the privileged supervisor that installs signed packages.
pub mod Journal
pub mod Cache
pub mod Supervisor
pub mod Steps
pub mod Ledger
pub mod Transactions
pub mod Turns
pub mod Safety
pub mod Receipts
pub mod Remember
pub mod Recovery
mod Examples
