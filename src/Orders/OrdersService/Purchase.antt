-- ===== src/Orders/OrdersService/Purchase.antt =====
-- `OrdersService.create`: the snapshot, the total, and what goes wrong.
use Prim.Native.String.{count}
use cinema_microservices.Prelude.{
  if◌then◌else◌, ◌*◌, ◌==◌, ◌≡◌, ◌≤◌, ℕ, arith, none, some, ◌∙◌, true, inl, ap, sym, inr,
}
use cinema_microservices.Runtime.Exceptions.{Nest, Thrown, http_exception, HttpException}
use cinema_microservices.Shared.Money.{Arithmetic}
use cinema_microservices.Orders.Order.{Orders, Order, accept_order, OrderColumns}
use cinema_microservices.Shared.RpcClient.{RpcClient, send, to_http_exception}
use cinema_microservices.Shared.Dtos.Movies.{MovieResponse}
use cinema_microservices.Orders.OrdersService.{create, total_price, order_of}
use cinema_microservices.Shared.Dtos.Orders.{CreateOrderPayload, confirmed, IsCreateOrderDto}
use cinema_microservices.Runtime.Async.{Settled, fulfilled, rejected, run}
use cinema_microservices.Runtime.Value.{hundredths}
use cinema_microservices.Shared.Money.Exact.{from_cents-times-to_cents}
use cinema_microservices.Shared.Services.{catalog_pattern, find_one_movie}
use cinema_microservices.Runtime.Async.Interleaving.{run-settle}
use cinema_microservices.Runtime.Repository.{stores}
use cinema_microservices.Runtime.Columns.{non_negative, non_negative-hundredths}
use cinema_microservices.Shared.RpcClient.Outcomes.{FailureStatus, to_http_exception-FailureStatus}

-- The sum of an order of at most ten tickets at 10000.00 at most, in cents.
total_bound : (cents quantity : ℕ) → cents ≤ 1000000 → quantity ≤ 10 → cents * quantity ≤ 10000000
total_bound cents quantity c q = grind arith

module _ (nest : Nest) (arithmetic : Arithmetic) {S : Type 0} (orders : Orders arithmetic S)
    (catalog : RpcClient S ℕ MovieResponse) where
  -- The answer of the catalog to the one request that `create` sends.
  abbrev pub asked : CreateOrderPayload → S → Settled MovieResponse × S
  asked payload s =
      catalog.proxy catalog.timeout_ms (catalog_pattern find_one_movie) payload.movie_id s

  -- A movie such as the catalog stores it, at a price of `cents`.
  pub record IsMovie (movie : MovieResponse) (cents : ℕ) : Type 0 where
    pub id : movie.id ≤ 2147483647
    pub title : count movie.title ≤ 255
    pub year : movie.release_year ≤ 32767
    pub price : movie.ticket_price ≡ hundredths cents
    pub price_max : cents ≤ 1000000

  pub record Ordered (payload : CreateOrderPayload) (movie : MovieResponse) (cents : ℕ) (s : S)
      (out : Settled Order × S) : Type 0 where
    pub order : Order
    pub result : out.0 ≡ fulfilled order
    pub owner : order.columns.user_id ≡ payload.user_id
    pub movie_id : order.columns.movie_id ≡ movie.id
    pub title : order.columns.movie_title ≡ movie.title
    pub year : order.columns.movie_release_year ≡ movie.release_year
    pub price : order.columns.ticket_price ≡ movie.ticket_price
    pub quantity : order.columns.quantity ≡ payload.quantity
    pub total : order.columns.total_price ≡ hundredths (cents * payload.quantity)
    pub status : order.columns.status ≡ confirmed
    pub fresh : orders.row s order.id ≡ none
    pub rows : (j : ℕ) → orders.row out.1 j ≡ (if j == order.id then some order else orders.row s j)

  pub run-create_refused :
      (payload : CreateOrderPayload) (s : S) (e : Thrown)
      → (asked payload s).0 ≡ rejected e
      → run (create nest arithmetic orders catalog payload) s ≡ (
        rejected (http_exception (to_http_exception nest catalog.service e)),
        (asked payload s).1,
      )
  unfolding create send
  run-create_refused payload s e h = rw (h, run)

  -- If the catalog does not answer with a movie, `create` throws an HTTP exception with the
  -- documented status of that failure, and no order is written or changed. The catalog service
  -- itself does not touch the orders.
  pub create_unavailable :
      ((movie_id : ℕ) (t : S) (j : ℕ)
        → orders.row
            (catalog.proxy catalog.timeout_ms (catalog_pattern find_one_movie) movie_id t).1
            j
          ≡ orders.row t j)
      → (payload : CreateOrderPayload) (s : S) (e : Thrown) → (asked payload s).0 ≡ rejected e
      → let out = run (create nest arithmetic orders catalog payload) s in
        (h : HttpException) × (out.0 ≡ rejected (http_exception h))
        × FailureStatus e h.status
        × ((j : ℕ) → orders.row out.1 j ≡ orders.row s j)
  create_unavailable frame payload s e h =
      let refused = run-create_refused payload s e h in
      (
        to_http_exception nest catalog.service e,
        ap (λ (r : Settled Order × S). r.0) refused,
        to_http_exception-FailureStatus nest catalog.service e,
        λ j. ap (λ (r : Settled Order × S). orders.row r.1 j) refused ∙ frame payload.movie_id s j,
      )

  run-create_answered :
      (payload : CreateOrderPayload) (s : S) (movie : MovieResponse)
      → (asked payload s).0 ≡ fulfilled movie
      → run (create nest arithmetic orders catalog payload) s
        ≡ orders.insert (order_of arithmetic payload movie) (asked payload s).1
  unfolding create send
  run-create_answered payload s movie h =
      rw (h, run)
        (let (r, s') = orders.insert (order_of arithmetic payload movie) (asked payload s).1 in
          run-settle r s')

  total_price-eq :
      (movie : MovieResponse) (cents quantity : ℕ)
      → IsMovie movie cents
      → quantity ≤ 10
      → total_price arithmetic movie.ticket_price quantity ≡ hundredths (cents * quantity)
  unfolding total_price
  total_price-eq movie cents quantity m q = rw (m.price) (
      from_cents-times-to_cents arithmetic cents quantity (let p = m.price_max in omega arith)
        (let b = total_bound cents quantity m.price_max q in omega arith))

  -- The order breaks no column type and no constraint of the table.
  accept_order-order_of :
      (payload : CreateOrderPayload) (movie : MovieResponse) (cents : ℕ)
      → IsMovie movie cents
      → IsCreateOrderDto payload.dto
      → payload.user_id ≤ 2147483647
      → accept_order arithmetic (order_of arithmetic payload movie)
        ≡ stores (order_of arithmetic payload movie)
  unfolding accept_order order_of
  accept_order-order_of payload movie cents m q u =
      let id = m.id in
      let title = m.title in
      let year = m.year in
      let min = q.quantity_min in
      let max = q.quantity_max in
      let price : arithmetic.numeric 10 2 movie.ticket_price ≡ some movie.ticket_price =
        rw m.price (arithmetic.numeric_hundredths 10 cents (let p = m.price_max in omega arith)) in
      let sum = total_price-eq movie cents payload.quantity m q.quantity_max in
      let total : arithmetic.numeric 12 2
            (total_price arithmetic movie.ticket_price payload.quantity)
          ≡ some (total_price arithmetic movie.ticket_price payload.quantity) =
        rw sum (
          arithmetic.numeric_hundredths 12 (cents * payload.quantity) (
            let b = total_bound cents payload.quantity m.price_max q.quantity_max in
            omega arith)) in
      let sign : non_negative (total_price arithmetic movie.ticket_price payload.quantity) ≡ true =
        rw sum (non_negative-hundredths (cents * payload.quantity)) in
      ground arith

  insert-Ordered :
      (payload : CreateOrderPayload) (movie : MovieResponse) (cents : ℕ) (s : S)
      → orders.is_up s ≡ true
      → IsMovie movie cents
      → IsCreateOrderDto payload.dto
      → payload.user_id ≤ 2147483647
      → Ordered payload movie cents s (orders.insert (order_of arithmetic payload movie) s)
  unfolding order_of
  insert-Ordered payload movie cents s up m q u =
      let accepted = accept_order-order_of payload movie cents m q u in
      elim (orders.insert_up (order_of arithmetic payload movie) s up) [
        | inl stored ↦
            let same : order_of arithmetic payload movie ≡ stored.new.columns =
              cc (accepted, stored.accepted) in
            record {
              order = stored.new;
              result = stored.result;
              owner = ap (λ (c : OrderColumns). c.user_id) (sym same);
              movie_id = ap (λ (c : OrderColumns). c.movie_id) (sym same);
              title = ap (λ (c : OrderColumns). c.movie_title) (sym same);
              year = ap (λ (c : OrderColumns). c.movie_release_year) (sym same);
              price = ap (λ (c : OrderColumns). c.ticket_price) (sym same);
              quantity = ap (λ (c : OrderColumns). c.quantity) (sym same);
              total =
                  ap (λ (c : OrderColumns). c.total_price) (sym same)
                  ∙ total_price-eq movie cents payload.quantity m q.quantity_max;
              status = ap (λ (c : OrderColumns). c.status) (sym same);
              fresh = stored.fresh;
              rows = stored.writes.0;
            }
        | inr refused ↦ elim refused.reason [
          | inl (c, _, _, clash) ↦ cc (clash.clashing)
          | inr (violation, _) ↦ cc (accepted, violation)
        ]
      ]

  -- A valid purchase of a movie of the catalog is stored: the order belongs to the user, holds a
  -- copy of the movie's title, year and price, and its total is exactly price times quantity in
  -- cents. Nothing else changes.
  pub create-Ordered :
      (payload : CreateOrderPayload) (movie : MovieResponse) (cents : ℕ) (s : S)
      → (asked payload s).0 ≡ fulfilled movie
      → orders.is_up (asked payload s).1 ≡ true
      → IsMovie movie cents
      → IsCreateOrderDto payload.dto
      → payload.user_id ≤ 2147483647
      → Ordered payload movie cents
          (asked payload s).1
          (run (create nest arithmetic orders catalog payload) s)
  create-Ordered payload movie cents s answered up m q u =
      rw (run-create_answered payload s movie answered)
        (insert-Ordered payload movie cents (asked payload s).1 up m q u)
