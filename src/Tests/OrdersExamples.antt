-- ===== src/Tests/OrdersExamples.antt =====
-- The order service on a table in memory, with a catalog that knows one movie.
use cinema_microservices.Orders.OrdersService.{
  create, cancel, find_one_for_user, already_cancelled, order_not_found,
}
use cinema_microservices.Shared.Services.{
  Services, default_rpc_timeout_ms, catalog_pattern, find_one_movie,
}
use cinema_microservices.Prelude.{refl, ◌≡◌, arith, none, some, true, ℕ, ap}
use cinema_microservices.Orders.Order.{Order, OrderColumns, Orders, accept_order, orders_table}
use cinema_microservices.Orders.OrdersService.Cancelling.{
  Cancelled, IsStored, cancel_confirmed, cancel_twice,
}
use cinema_microservices.Orders.OrdersService.Ownership.{Owns, foreign_order}
use cinema_microservices.Orders.OrdersService.Purchase.{
  IsMovie, Ordered, create-Ordered, create_unavailable,
}
use cinema_microservices.Runtime.Async.{run, fulfilled, rejected}
use cinema_microservices.Runtime.Exceptions.{
  documented, http_exception, timeout_error, HttpException,
}
use cinema_microservices.Runtime.Memory.Laws.{in_memory}
use cinema_microservices.Runtime.Memory.Search.{Memory}
use cinema_microservices.Shared.Dtos.Movies.{MovieResponse}
use cinema_microservices.Shared.Dtos.Orders.{CreateOrderPayload, IsCreateOrderDto, confirmed}
use cinema_microservices.Shared.RpcClient.{RpcClient}
use cinema_microservices.Runtime.Memory.Search.{Body, empty, put}
use cinema_microservices.Runtime.Value.{hundredths}
use cinema_microservices.Shared.Money.Decimal.{decimal}
use cinema_microservices.Tests.Codes.{orders_table-PlainCodes}
use cinema_microservices.Shared.RpcClient.Outcomes.{FailureStatus}

unfoldable pub orders : Orders decimal (Memory OrderColumns)
orders = in_memory (orders_table decimal) orders_table-PlainCodes

abbrev alien : MovieResponse
alien = record {
  id = 4;
  title = "Alien";
  description = none;
  release_year = 1979;
  duration_minutes = 117;
  ticket_price = hundredths 1250;
  created_at = 0;
  updated_at = 0;
}

abbrev pub catalog : RpcClient (Memory OrderColumns) ℕ MovieResponse
catalog = record {
  proxy = λ timeout_ms pattern movie_id s. (fulfilled alien, s);
  service = Services.catalog;
  timeout_ms = default_rpc_timeout_ms;
}

abbrev silent_catalog : RpcClient (Memory OrderColumns) ℕ MovieResponse
silent_catalog = record catalog {
  proxy = λ timeout_ms pattern movie_id s. (rejected timeout_error, s);
}

abbrev pub three_tickets : CreateOrderPayload
three_tickets = record { dto = record { movie_id = 4; quantity = 3 }; user_id = 7 }

three_tickets-IsCreateOrderDto : IsCreateOrderDto three_tickets.dto
three_tickets-IsCreateOrderDto = record {
  movie_id_positive = ground arith;
  quantity_min = ground arith;
  quantity_max = ground arith;
}

alien-IsMovie : IsMovie documented decimal orders catalog alien 1250
alien-IsMovie = record {
  id = ground arith;
  title = ground arith;
  year = ground arith;
  price = refl;
  price_max = ground arith;
}

empty_up : orders.is_up empty ≡ true
unfolding orders in_memory
empty_up = refl

create-Ordered_example :
    Ordered documented decimal orders catalog three_tickets alien 1250 empty
      (run (create documented decimal orders catalog three_tickets) empty)
create-Ordered_example =
    create-Ordered documented decimal orders catalog three_tickets alien 1250 empty refl empty_up
      alien-IsMovie three_tickets-IsCreateOrderDto (omega arith)

silent_catalog-frame :
    (movie_id : ℕ) (t : Memory OrderColumns) (j : ℕ)
    → orders.row
        (silent_catalog.proxy silent_catalog.timeout_ms
          (catalog_pattern find_one_movie)
          movie_id
          t).1
        j
      ≡ orders.row t j
silent_catalog-frame movie_id t j = refl

create_unavailable_example :
    let out = run (create documented decimal orders silent_catalog three_tickets) empty in
    (h : HttpException) × (out.0 ≡ rejected (http_exception h))
    × FailureStatus timeout_error h.status
    × ((j : ℕ) → orders.row out.1 j ≡ orders.row empty j)
create_unavailable_example =
    create_unavailable documented decimal orders silent_catalog silent_catalog-frame three_tickets
      empty timeout_error refl

-- An order of user 7 that is stored under the id 1.
abbrev pub order : Order
order = record {
  id = 1;
  columns = record {
    user_id = 7;
    movie_id = 4;
    movie_title = "Alien";
    movie_release_year = 1979;
    ticket_price = hundredths 1250;
    quantity = 3;
    total_price = hundredths 3750;
    status = confirmed;
  };
  created_at = 5;
  updated_at = 5;
}

abbrev body : OrderColumns → Body OrderColumns
body c = record { columns = c; created_at = 5; updated_at = 5 }

abbrev pub with_order : Memory OrderColumns
with_order = put empty 1 (some (body order.columns))

with_order_up : orders.is_up with_order ≡ true
unfolding orders in_memory
with_order_up = refl

pub with_order_row : orders.row with_order 1 ≡ some order
unfolding orders in_memory
with_order_row = refl

order-IsStored : IsStored decimal order.columns
unfolding accept_order
order-IsStored =
    let price : decimal.numeric 10 2 (hundredths 1250) ≡ some (hundredths 1250) =
      decimal.numeric_hundredths 10 1250 (omega arith) in
    let total : decimal.numeric 12 2 (hundredths 3750) ≡ some (hundredths 3750) =
      decimal.numeric_hundredths 12 3750 (omega arith) in
    rw (price, total)

not_owned : ¬ Owns documented decimal orders catalog with_order 8 1
not_owned (o, there, mine) =
    let same : order ≡ o = cc (with_order_row, there) in
    let first : 7 ≡ o.columns.user_id = ap (λ (x : Order). x.columns.user_id) same in
    let other : o.columns.user_id ≡ 8 = mine in omega arith

foreign_order_example :
    (run (find_one_for_user documented decimal orders catalog 8 1) with_order
      ≡ (rejected (order_not_found documented 1), with_order))
    × (run (cancel documented decimal orders catalog 8 1) with_order
        ≡ (rejected (order_not_found documented 1), with_order))
foreign_order_example =
    foreign_order documented decimal orders catalog 8 1 with_order with_order_up not_owned

cancel_confirmed_example :
    Cancelled documented decimal orders catalog order with_order
      (run (cancel documented decimal orders catalog 7 1) with_order)
cancel_confirmed_example =
    cancel_confirmed documented decimal orders catalog 7 1 with_order order with_order_up
      with_order_row refl refl order-IsStored

cancel_twice_example :
    let s' = (run (cancel documented decimal orders catalog 7 1) with_order).1 in
    run (cancel documented decimal orders catalog 7 1) s'
    ≡ (rejected (already_cancelled documented 1), s')
cancel_twice_example =
    cancel_twice documented decimal orders catalog 7 1 with_order order with_order_up with_order_row
      refl refl order-IsStored
