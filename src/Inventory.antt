-- ===== src/Inventory.antt =====
-- src/model.rs: the inventory snapshot, its normal form, its validation and its delta.
pub mod Order
pub mod Lexicographic
pub mod Text
pub mod Sort
pub mod Entry
pub mod Snapshot
pub mod Rows
pub mod Unique
pub mod Newest
pub mod Dropped
pub mod Words
pub mod Architecture
pub mod Normal
pub mod Identifiers
pub mod Idempotent
pub mod Validate
pub mod Sources
pub mod Accepted
pub mod Delta
pub mod Fixtures
pub mod Examples
pub mod Valid
pub mod Described
pub mod Meaning
pub mod Hash
pub mod Framing
pub mod Version
