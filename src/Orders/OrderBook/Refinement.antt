-- ===== src/Orders/OrderBook/Refinement.antt =====
-- The handlers of the order service (apps/order-service/src) keep the promise of the order book,
-- however they interleave.
use cinema_microservices.Orders.OrdersController.{Reply}
use cinema_microservices.Orders.OrdersService.{order_of, newest_first}
use cinema_microservices.Prelude.{none, some}
use cinema_microservices.Orders.OrdersService
use cinema_microservices.Orders.OrdersController.{Request, handle, serve}
use cinema_microservices.Runtime.Async.{
  ◌>>=◌, ◌>>◌, fulfilled, or_throw, throw_if, call, read, return,
}
use cinema_microservices.Prelude.{
  [], refl, ◌&&◌, ◌==◌, ◌∷◌, ◌≡◌, ℕ, List, All, Option, map, some, none,
}
use cinema_microservices.Runtime.Exceptions.{Nest}
use cinema_microservices.Shared.Money.{Arithmetic}
use cinema_microservices.Orders.Order.{Orders, Order}
use cinema_microservices.Shared.RpcClient.{RpcClient, send}
use cinema_microservices.Shared.Dtos.Movies.{MovieResponse}
use cinema_microservices.Orders.OrderBook.Writes.{
  Refines, Refines-IsPreorder, same_rows, found_later, found_row, save-Refines, insert-Refines,
}
use cinema_microservices.Runtime.Async.Rely.{
  Obeys, Obeys-bind, Obeys-catch, Obeys-read, Obeys-return, interleave-Obeys, Obeys-call,
  Obeys-or_throw, Obeys-throw, Obeys-throw_if, Obeys-read_bind, IsPreorder,
}
use cinema_microservices.Shared.RpcError.{with_filter}
use cinema_microservices.Shared.Services.{catalog_pattern, find_one_movie}
use cinema_microservices.Runtime.Async.Interleaving.{interleave}
use cinema_microservices.Shared.Dtos.Orders.{CreateOrderPayload, is_cancelled, cancelled}
use cinema_microservices.Orders.OrdersService.{order_not_found, already_cancelled}
use cinema_microservices.Orders.OrderBook.{Reach-trans}

module _ (nest : Nest) (arithmetic : Arithmetic) {S : Type 0} (orders : Orders arithmetic S)
    (catalog : RpcClient S ℕ MovieResponse) where
  -- The catalog service has no access to the orders: its answers change none.
  abbrev pub LeavesOrders : Type 0
  LeavesOrders =
      (movie_id : ℕ) (s : S) (j : ℕ)
      → orders.row (catalog.proxy catalog.timeout_ms (catalog_pattern find_one_movie) movie_id s).1
          j
        ≡ orders.row s j

  abbrev Promise : S → S → Type 0
  Promise = Refines arithmetic orders

  abbrev in_order : IsPreorder Promise
  in_order = Refines-IsPreorder arithmetic orders

  module _ (frame : LeavesOrders) where
    create-Obeys :
        (payload : CreateOrderPayload) (s : S)
        → Obeys Promise s (OrdersService.create nest arithmetic orders catalog payload)
    unfolding OrdersService.create send order_of
    create-Obeys payload s =
        Obeys-bind Promise in_order s _ _
          (Obeys-catch Promise in_order s _ _
            (Obeys-call s
              (catalog.proxy catalog.timeout_ms (catalog_pattern find_one_movie) payload.movie_id)
              (λ t r. same_rows arithmetic orders t _ (frame payload.movie_id t)))
            (λ t e. Obeys-throw t _))
          (λ t movie r.
            Obeys-call t (orders.insert (order_of arithmetic payload movie))
              (λ u r'. insert-Refines arithmetic orders (order_of arithmetic payload movie) u refl))

  cancel-Obeys :
      (user_id order_id : ℕ) (s : S)
      → Obeys Promise s (OrdersService.cancel nest arithmetic orders catalog user_id order_id)
  unfolding OrdersService.cancel
  cancel-Obeys user_id order_id s =
      Obeys-read_bind Promise in_order s
        (orders.find_one_by (λ o. o.id == order_id && o.columns.user_id == user_id))
        (λ o. or_throw o (order_not_found nest order_id)) _ (λ t found e. after t found e)
    where
      after :
          (t : S) (found : Option Order)
          → orders.find_one_by (λ o. o.id == order_id && o.columns.user_id == user_id) t
            ≡ fulfilled found
          → Obeys Promise t (
              or_throw found (order_not_found nest order_id) >>= (λ order.
                throw_if (is_cancelled order.columns.status) (already_cancelled nest order_id)
                >> call (
                    orders.save order.id order.created_at
                      (record (order.columns) { status = cancelled }))))
      after t none e = Obeys-throw t _
      after t (some o) e =
          Obeys-bind Promise in_order t _ _ (Obeys-throw_if t (is_cancelled o.columns.status) _)
            (λ u a r.
              Obeys-call u
                (orders.save o.id o.created_at (record (o.columns) { status = cancelled }))
                (λ v r'.
                  let (old, now, h) =
                    found_later arithmetic orders t v o.id o (found_row arithmetic orders _ t o e)
                      (Reach-trans r r') in
                  save-Refines arithmetic orders o.id o.created_at o.columns v old now h))

  lookup-Obeys :
      (user_id order_id : ℕ) (s : S)
      → Obeys Promise s
          (OrdersService.find_one_for_user nest arithmetic orders catalog user_id order_id)
  unfolding OrdersService.find_one_for_user
  lookup-Obeys user_id order_id s =
      Obeys-bind Promise in_order s _ _
        (Obeys-read Promise in_order s
          (orders.find_one_by (λ o. o.id == order_id && o.columns.user_id == user_id)))
        (λ t found r. Obeys-or_throw t found (order_not_found nest order_id))

  module _ (frame : LeavesOrders) where
    handle-Obeys :
        (request : Request) (s : S)
        → Obeys Promise s (handle nest arithmetic orders catalog request)
    unfolding handle OrdersService.find_all_for_user
    handle-Obeys (Request.create payload) s =
        Obeys-bind Promise in_order s _ _ (create-Obeys frame payload s) (λ t o r. Obeys-return t _)
    handle-Obeys (Request.find_all user_id) s =
        Obeys-bind Promise in_order s
          (read (orders.find (λ o. o.columns.user_id == user_id) newest_first))
          (λ os. return (Reply.orders os))
          (Obeys-read Promise in_order s
            (orders.find (λ o. o.columns.user_id == user_id) newest_first))
          (λ t os r. Obeys-return t (Reply.orders os))
    handle-Obeys (Request.find_one payload) s =
        Obeys-bind Promise in_order s _ _ (lookup-Obeys payload.user_id payload.order_id s)
          (λ t o r. Obeys-return t _)
    handle-Obeys (Request.cancel payload) s =
        Obeys-bind Promise in_order s _ _ (cancel-Obeys payload.user_id payload.order_id s)
          (λ t o r. Obeys-return t _)

    serve-Obeys :
        (requests : List Request) (s : S)
        → All (Obeys Promise s) (map (serve nest arithmetic orders catalog) requests)
    unfolding serve with_filter
    serve-Obeys [] s = tt
    serve-Obeys (r ∷ rs) s = (
      Obeys-catch Promise in_order s _ _ (handle-Obeys r s) (λ t e. Obeys-throw t _),
      serve-Obeys rs s,
    )

  -- Whatever requests the order service handles at the same time, and however their database calls
  -- interleave, the table changes only as the order book does: by placing confirmed orders for at
  -- least one ticket under new ids, and by cancelling confirmed orders. The catalog may change in
  -- any way meanwhile, but not the orders.
  pub interleave-Refines :
      (requests : List Request) (schedule : List ℕ) (s : S)
      → LeavesOrders
      → Refines arithmetic orders s
          (interleave schedule (map (serve nest arithmetic orders catalog) requests) s).1
  interleave-Refines requests schedule s frame =
      interleave-Obeys Promise in_order schedule
        (map (serve nest arithmetic orders catalog) requests) s (serve-Obeys frame requests s)
