-- ===== src/Orders/OrdersService.antt =====
-- apps/order-service/src/orders.service.ts
pub mod Ownership
pub mod Cancelling
pub mod Purchase
pub mod Listing
use cinema_microservices.Prelude.{[], ◌&&◌, ◌==◌, ◌||◌, ◌∷◌, Bool, ℕ, ltb, List}
use cinema_microservices.Orders.Order.{Order, Orders, OrderColumns}
use cinema_microservices.Runtime.Exceptions.{Nest, Thrown, http_exception}
use cinema_microservices.Shared.Money.{Arithmetic, from_cents, to_cents}
use cinema_microservices.Runtime.Value.{Number, natural, template, show}
use cinema_microservices.Shared.Dtos.Orders.{CreateOrderPayload, confirmed, is_cancelled, cancelled}
use cinema_microservices.Shared.Dtos.Movies.{MovieResponse}
use cinema_microservices.Shared.RpcClient.{RpcClient, send}
use cinema_microservices.Runtime.Async.{Async, ◌>>=◌, read, ◌>>◌, or_throw, throw_if, call}
use cinema_microservices.Shared.Services.{catalog_pattern, find_one_movie}

-- `order: { createdAt: "DESC", id: "DESC" }`
abbrev pub newest_first : Order → Order → Bool
newest_first a b = ltb b.created_at a.created_at || (a.created_at == b.created_at && ltb b.id a.id)

module _ (nest : Nest) where
  unfoldable pub order_not_found : ℕ → Thrown
  order_not_found id =
      http_exception (nest.not_found (template ("Order " ∷ show id ∷ " not found" ∷ [])))

  unfoldable pub already_cancelled : ℕ → Thrown
  already_cancelled id =
      http_exception (nest.conflict (template ("Order " ∷ show id ∷ " is already cancelled" ∷ [])))

-- `fromCents(toCents(movie.ticketPrice) * quantity)`
unfoldable pub total_price : Arithmetic → Number → ℕ → Number
total_price arithmetic ticket_price quantity =
    from_cents arithmetic (arithmetic.times (to_cents arithmetic ticket_price) (natural quantity))

-- The snapshot of the movie at the time of the purchase.
unfoldable pub order_of : Arithmetic → CreateOrderPayload → MovieResponse → OrderColumns
order_of arithmetic payload movie = record {
  user_id = payload.user_id;
  movie_id = movie.id;
  movie_title = movie.title;
  movie_release_year = movie.release_year;
  ticket_price = movie.ticket_price;
  quantity = payload.quantity;
  total_price = total_price arithmetic movie.ticket_price payload.quantity;
  status = confirmed;
}

module _ (nest : Nest) (arithmetic : Arithmetic) {S : Type 0} (orders : Orders arithmetic S)
    (catalog : RpcClient S ℕ MovieResponse) where
  unfoldable pub create : CreateOrderPayload → Async S Order
  create payload = do
    movie ← send nest catalog (catalog_pattern find_one_movie) payload.movie_id
    call (orders.insert (order_of arithmetic payload movie))

  unfoldable pub find_all_for_user : ℕ → Async S (List Order)
  find_all_for_user user_id = read (orders.find (λ o. o.columns.user_id == user_id) newest_first)

  unfoldable pub find_one_for_user : ℕ → ℕ → Async S Order
  find_one_for_user user_id order_id = do
    order ← read (orders.find_one_by (λ o. o.id == order_id && o.columns.user_id == user_id))
    or_throw order (order_not_found nest order_id)

  unfoldable pub cancel : ℕ → ℕ → Async S Order
  unfolding find_one_for_user
  cancel user_id order_id = do
    order ← find_one_for_user user_id order_id
    throw_if (is_cancelled order.columns.status) (already_cancelled nest order_id)
    call (orders.save order.id order.created_at (record (order.columns) { status = cancelled }))
