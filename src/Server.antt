-- ===== src/Server.antt =====
-- The server's runtime around an executor (crates/turul-a2a/src): the handle of a running task, the
-- event sink through which an executor writes, and the stream that a subscriber reads.
pub mod Handle
pub mod Sink
pub mod Subscription
