-- ===== src/Redis.antt =====
-- internal/repository/redis/redis.go.
pub mod Store
pub mod Limits
pub mod Once
pub mod Daily
pub mod Sessions
pub mod Challenge
pub mod Codes
pub mod Reads
