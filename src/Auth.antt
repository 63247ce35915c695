-- ===== src/Auth.antt =====
-- apps/auth-service: accounts, log-in and access tokens.
pub mod User
pub mod Credentials
pub mod AuthService
pub mod AuthController
