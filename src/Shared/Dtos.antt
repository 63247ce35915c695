-- ===== src/Shared/Dtos.antt =====
-- libs/shared/src/dtos: the payloads and responses of the services.
pub mod Movies
pub mod Orders
pub mod Accounts
pub mod Schemas
