-- ===== src/Shared.antt =====
-- libs/shared: what the gateway and the services have in common.
pub mod Services
pub mod Role
pub mod Dtos
pub mod RpcError
pub mod RpcClient
pub mod Money
pub mod Health
pub mod Logging
pub mod Microservice
