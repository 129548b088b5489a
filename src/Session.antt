-- ===== src/Session.antt =====
-- The session with the server: the token of src/auth.rs and the heartbeats of src/heartbeat.rs.
pub mod Client
pub mod Loop
pub mod Renewed
pub mod Offers
pub mod Examples
