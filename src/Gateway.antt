-- ===== src/Gateway.antt =====
-- apps/api-gateway: the HTTP routes, and who may use them.
pub mod Bearer
pub mod JwtAuthGuard
pub mod Routes
pub mod Access
pub mod Bodies
pub mod Health
