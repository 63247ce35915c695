-- ===== src/Orders/OrdersService/Listing.antt =====
-- `OrdersService.findAllForUser`: the list of a user's orders.
use cinema_microservices.Orders.Order.{Order, Orders}
use cinema_microservices.Shared.RpcClient.{RpcClient}
