-- ===== src/Orders/OrdersController/Snapshot.antt =====
-- What concurrent requests may do to an order that exists (apps/order-service/src).
use cinema_microservices.Prelude.{◌≡◌, ℕ, List, some, map}
use cinema_microservices.Runtime.Exceptions.{Nest}
use cinema_microservices.Shared.Money.{Arithmetic}
use cinema_microservices.Orders.Order.{Orders, Order}
use cinema_microservices.Shared.RpcClient.{RpcClient}
use cinema_microservices.Shared.Dtos.Movies.{MovieResponse}
use cinema_microservices.Orders.OrdersController.{Request, serve}
use cinema_microservices.Orders.OrderBook.{Evolves}
use cinema_microservices.Orders.OrderBook.Refinement.{LeavesOrders, interleave-Refines}
use cinema_microservices.Runtime.Async.Interleaving.{interleave}
use cinema_microservices.Orders.OrderBook.Writes.{found_later}

module _ (nest : Nest) (arithmetic : Arithmetic) {S : Type 0} (orders : Orders arithmetic S)
    (catalog : RpcClient S ℕ MovieResponse) where
  -- Every order of the state `first` is still there, and has only evolved.
  abbrev pub History : S → S → Type 0
  History first s =
      (j : ℕ) (o : Order)
      → orders.row first j ≡ some o
      → (o' : Order) × (orders.row s j ≡ some o') × Evolves o.columns o'.columns

  -- Whatever requests run at the same time, every order that there was before is still there
  -- afterwards, with its owner, its movie, its snapshot and its total; a cancelled order stays
  -- cancelled. The catalog may change in any way meanwhile.
  pub interleave-History :
      (requests : List Request) (schedule : List ℕ) (s : S)
      → LeavesOrders nest arithmetic orders catalog
      → History s (interleave schedule (map (serve nest arithmetic orders catalog) requests) s).1
  interleave-History requests schedule s frame = λ j o there.
      found_later arithmetic orders s
        (interleave schedule (map (serve nest arithmetic orders catalog) requests) s).1 j o there
        (interleave-Refines nest arithmetic orders catalog requests schedule s frame)
