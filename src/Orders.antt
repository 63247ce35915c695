-- ===== src/Orders.antt =====
-- apps/order-service: ticket orders.
pub mod Order
pub mod OrdersService
pub mod OrdersController
pub mod OrderBook
