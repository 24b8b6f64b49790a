-- ===== src/World.antt =====
-- The state that the services share, and the monad in which they run.
pub mod Rows
pub mod Exec
pub mod Keeps
pub mod KeepsOk
pub mod Gives
pub mod Bind
pub mod Stays
pub mod Adds
pub mod Makes
pub mod Atomic
