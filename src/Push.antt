-- ===== src/Push.antt =====
-- Push notifications (crates/turul-a2a/src/push): the guard on the addresses that the server
-- connects to, and the worker that delivers one notification.
pub mod Ssrf
pub mod Lookup
pub mod Worker
pub mod Persist
pub mod Delivery
