-- ===== src/Tests.antt =====
-- Concrete tables, clients and requests, and the theorems of the library applied to them.
pub mod Codes
pub mod CatalogExamples
pub mod OrdersExamples
pub mod AuthExamples
pub mod GatewayExamples
pub mod RpcExamples
pub mod BookExamples
pub mod Validators
pub mod ConfigExamples
pub mod BodyExamples
pub mod HealthExamples
pub mod SystemExamples
pub mod DeliveryExamples
