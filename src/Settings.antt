-- ===== src/Settings.antt =====
-- The settings of the agent: src/config.rs, where they start, and src/managed.rs, where the server
-- changes them.
pub mod Config
pub mod Accepted
pub mod Managed
pub mod Bounds
pub mod Obeyed
pub mod Repeated
pub mod Examples
