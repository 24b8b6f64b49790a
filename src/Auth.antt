-- ===== src/Auth.antt =====
-- internal/service/service.go, AuthService.
pub mod Register
pub mod Login
pub mod Balance
pub mod Device
pub mod Admin
