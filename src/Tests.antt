-- ===== src/Tests.antt =====
-- Concrete data, and the theorems of the development at inputs where their hypotheses hold.
mod Data
mod Lifecycle
mod Storage
mod Registration
mod Claims
mod Cancellation
mod Server
mod Push
mod Middleware
mod Client
mod Auth
