-- ===== src/Orders/OrdersController.antt =====
-- apps/order-service/src/orders.controller.ts: one handler for each message pattern, behind the
-- exception filter that `configureMicroservice` installs.
pub mod Snapshot
use cinema_microservices.Orders.OrdersService
use cinema_microservices.Prelude.{List, ℕ}
use cinema_microservices.Runtime.Exceptions.{Nest}
use cinema_microservices.Shared.Dtos.Orders.{CreateOrderPayload, UserOrderPayload}
use cinema_microservices.Orders.Order.{Order, Orders}
use cinema_microservices.Shared.Money.{Arithmetic}
use cinema_microservices.Shared.RpcClient.{RpcClient}
use cinema_microservices.Shared.Dtos.Movies.{MovieResponse}
use cinema_microservices.Runtime.Async.{Async, ◌>>=◌, return}
use cinema_microservices.Shared.RpcError.{with_filter}

pub data Request : Type 0 where
  create : CreateOrderPayload → Request
  find_all : ℕ → Request
  find_one : UserOrderPayload → Request
  cancel : UserOrderPayload → Request

pub data Reply : Type 0 where
  orders : List Order → Reply
  order : Order → Reply

module _ (nest : Nest) (arithmetic : Arithmetic) {S : Type 0} (repository : Orders arithmetic S)
    (catalog : RpcClient S ℕ MovieResponse) where
  unfoldable pub handle : Request → Async S Reply
  handle (create payload) = do
    created ← OrdersService.create nest arithmetic repository catalog payload
    return (order created)
  handle (find_all user_id) = do
    found ← OrdersService.find_all_for_user nest arithmetic repository catalog user_id
    return (orders found)
  handle (find_one payload) = do
    found ←
        OrdersService.find_one_for_user nest arithmetic repository catalog payload.user_id
          payload.order_id
    return (order found)
  handle (cancel payload) = do
    cancelled_order ←
        OrdersService.cancel nest arithmetic repository catalog payload.user_id payload.order_id
    return (order cancelled_order)

  unfoldable pub serve : Request → Async S Reply
  unfolding handle with_filter
  serve request = with_filter (handle request)
