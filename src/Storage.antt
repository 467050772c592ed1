-- ===== src/Storage.antt =====
-- The storage layer of the server (crates/turul-a2a/src/storage): its state, the helpers that the
-- backends share, and the in-memory backend, trait by trait.
pub mod Clock
pub mod State
pub mod Action
pub mod Tasks
pub mod Events
pub mod Atomic
pub mod Configs
pub mod Supervisor
pub mod Claims
pub mod Failed
pub mod Cleanup
pub mod Listing
pub mod Reads
pub mod Requests
pub mod Atomicity
pub mod Sequence
pub mod Kept
pub mod Named
pub mod Growth
pub mod Terminal
pub mod Replay
pub mod ClaimRows
pub mod Fencing
pub mod Cancellation
pub mod Sweeps
pub mod Epoch
pub mod Isolation
pub mod Pending
pub mod Marks
pub mod Registration
