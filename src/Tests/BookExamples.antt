-- ===== src/Tests/BookExamples.antt =====
-- Requests that the order service handles at the same time.
use cinema_microservices.Orders.OrdersController.{Request}
use cinema_microservices.Orders.OrdersController.{serve}
use cinema_microservices.Tests.OrdersExamples.{
  order, orders, catalog, three_tickets, with_order, with_order_row,
}
use cinema_microservices.Prelude.{[], refl, ◌∷◌, ◌≡◌, map, some}
use cinema_microservices.Orders.Order.{Order}
use cinema_microservices.Orders.OrderBook.Refinement.{LeavesOrders, interleave-Refines}
use cinema_microservices.Orders.OrderBook.Writes.{Refines}
use cinema_microservices.Runtime.Async.Interleaving.{interleave}
use cinema_microservices.Runtime.Exceptions.{documented}
use cinema_microservices.Shared.Money.Decimal.{decimal}
use cinema_microservices.Orders.OrderBook.{Evolves}
use cinema_microservices.Orders.OrdersController.Snapshot.{interleave-History}

catalog-LeavesOrders : LeavesOrders documented decimal orders catalog
catalog-LeavesOrders movie_id s j = refl

-- A purchase and two cancellations of the same order at the same time.
interleave-History_example :
    (o : Order) × (orders.row
        (interleave
          (0 ∷ 1 ∷ 2 ∷ 0 ∷ 1 ∷ 2 ∷ 0 ∷ [])
          (map (serve documented decimal orders catalog) (
            Request.create three_tickets
            ∷ Request.cancel (record { user_id = 7; order_id = 1 })
            ∷ Request.cancel (record { user_id = 7; order_id = 1 })
            ∷ []))
          with_order).1
        1
      ≡ some o)
    × Evolves order.columns o.columns
interleave-History_example =
    interleave-History documented decimal orders catalog
      (Request.create three_tickets
        ∷ Request.cancel (record { user_id = 7; order_id = 1 })
        ∷ Request.cancel (record { user_id = 7; order_id = 1 })
        ∷ [])
      (0 ∷ 1 ∷ 2 ∷ 0 ∷ 1 ∷ 2 ∷ 0 ∷ []) with_order catalog-LeavesOrders 1 order with_order_row

interleave-Refines_example :
    Refines decimal orders with_order
      (interleave
        (0 ∷ 1 ∷ 2 ∷ 0 ∷ 1 ∷ 2 ∷ 0 ∷ [])
        (map (serve documented decimal orders catalog) (
          Request.create three_tickets
          ∷ Request.cancel (record { user_id = 7; order_id = 1 })
          ∷ Request.cancel (record { user_id = 7; order_id = 1 })
          ∷ []))
        with_order).1
interleave-Refines_example =
    interleave-Refines documented decimal orders catalog
      (Request.create three_tickets
        ∷ Request.cancel (record { user_id = 7; order_id = 1 })
        ∷ Request.cancel (record { user_id = 7; order_id = 1 })
        ∷ [])
      (0 ∷ 1 ∷ 2 ∷ 0 ∷ 1 ∷ 2 ∷ 0 ∷ []) with_order catalog-LeavesOrders
