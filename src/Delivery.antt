-- ===== src/Delivery.antt =====
-- src/delivery: the spool of inventory snapshots, their submission and the accepted state.
pub mod Host
pub mod Spool
pub mod Retry
pub mod Submit
pub mod State
pub mod Worker
pub mod Queue
pub mod Restart
pub mod Delays
pub mod Age
pub mod Eviction
pub mod Network
pub mod Attempt
pub mod Attempts
mod Examples
