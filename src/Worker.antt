-- ===== src/Worker.antt =====
-- internal/worker/worker.go. A job's payload is decoded JSON: the handlers take its fields, and a
-- payload that does not decode fails before anything else.
pub mod Payment
pub mod Activation
pub mod Rewards
pub mod Sweep
pub mod Queue
pub mod Balance
pub mod Once
