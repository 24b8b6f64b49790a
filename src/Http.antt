-- ===== src/Http.antt =====
-- internal/handler/http/handlers.go: what the handlers do beside the services. An error stands for
-- an answer with an error status; what was written before it stays written.
pub mod Auth
pub mod Rotation
pub mod Replay
pub mod Profile
pub mod Balance
pub mod Sessions
