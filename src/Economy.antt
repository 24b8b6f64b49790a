-- ===== src/Economy.antt =====
-- internal/service/service.go, EconomyService.
pub mod Accounts
pub mod Plans
pub mod Balance
pub mod Promos
pub mod Atomicity
