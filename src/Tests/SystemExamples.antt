-- ===== src/Tests/SystemExamples.antt =====
-- An order on its way through all services, on tables in memory.
use cinema_microservices.System.{connected}
use cinema_microservices.System.Ordering.{identified, order_call-Purchased}
use cinema_microservices.System.Ordering.{Purchased}
use cinema_microservices.Gateway.Routes.{create_order, Clients, order_call}
use cinema_microservices.Orders.OrdersController
use cinema_microservices.Shared.Services.{Services}
use cinema_microservices.Gateway.Routes.{Message}
use cinema_microservices.Shared.Role.{Role, AuthUser}
use cinema_microservices.Prelude.{refl, ◌≡◌, arith, none, some, true, ℕ, subst}
use cinema_microservices.Catalog.Movie.{Movie, Movies, MovieColumns, movies_table}
use cinema_microservices.Orders.Order.{Orders, OrderColumns, orders_table}
use cinema_microservices.Orders.OrdersService.Purchase.{IsMovie}
use cinema_microservices.Runtime.Memory.Search.{Memory, put, empty}
use cinema_microservices.Runtime.Repository.Part.{Part, of_part}
use cinema_microservices.Runtime.Value.{Value, natural, null, hundredths, string}
use cinema_microservices.Shared.Dtos.Orders.{CreateOrderDto, IsCreateOrderDto}
use cinema_microservices.Shared.RpcClient.{RpcClient}
use cinema_microservices.Runtime.Async.{rejected, run}
use cinema_microservices.Runtime.Exceptions.{documented, timeout_error}
use cinema_microservices.Runtime.Memory.Laws.{in_memory}
use cinema_microservices.Shared.Money.Decimal.{decimal}
use cinema_microservices.System.{catalog_client, movie_response}
use cinema_microservices.Tests.Codes.{movies_table-PlainCodes, orders_table-PlainCodes}

abbrev State : Type 0
State = Memory MovieColumns × Memory OrderColumns

abbrev movies_part : Part State (Memory MovieColumns)
movies_part = record { get = λ s. s.0; put = λ t s. (t, s.1); get-put = λ t s. refl }

abbrev orders_part : Part State (Memory OrderColumns)
orders_part = record { get = λ s. s.1; put = λ t s. (s.0, t); get-put = λ t s. refl }

unfoldable movie_table : Movies decimal State
movie_table = of_part movies_part (in_memory (movies_table decimal) movies_table-PlainCodes)

unfoldable order_table : Orders decimal State
order_table = of_part orders_part (in_memory (orders_table decimal) orders_table-PlainCodes)

abbrev alien : Movie
alien = record {
  id = 4;
  columns = record {
    title = "Alien";
    description = none;
    release_year = 1979;
    duration_minutes = 117;
    ticket_price = hundredths 1250;
  };
  created_at = 5;
  updated_at = 5;
}

abbrev with_alien : State
with_alien =
    (put empty 4 (some (record { columns = alien.columns; created_at = 5; updated_at = 5 })), empty)

movies_up : movie_table.is_up with_alien ≡ true
unfolding movie_table of_part in_memory
movies_up = refl

orders_up : order_table.is_up with_alien ≡ true
unfolding order_table of_part in_memory
orders_up = refl

alien_row : movie_table.row with_alien 4 ≡ some alien
unfolding movie_table of_part in_memory
alien_row = refl

alien-IsMovie :
    IsMovie documented decimal order_table
      (catalog_client documented decimal movie_table order_table 5000)
      (movie_response alien)
      1250
alien-IsMovie = record {
  id = ground arith;
  title = ground arith;
  year = ground arith;
  price = refl;
  price_max = ground arith;
}

stored-IsMovie :
    (m : Movie)
    → movie_table.row with_alien 4 ≡ some m
    → (cents : ℕ) × IsMovie documented decimal order_table
        (catalog_client documented decimal movie_table order_table 5000)
        (movie_response m)
        cents
stored-IsMovie m there =
    let it : alien ≡ m = cc (there, alien_row) in
    (
      1250,
      subst
          (λ x.
            IsMovie documented decimal order_table
              (catalog_client documented decimal movie_table order_table 5000) (movie_response x)
              1250)
          it alien-IsMovie,
    )

abbrev three : CreateOrderDto
three = record { movie_id = 4; quantity = 3 }

three-IsCreateOrderDto : IsCreateOrderDto three
three-IsCreateOrderDto = record {
  movie_id_positive = ground arith;
  quantity_min = ground arith;
  quantity_max = ground arith;
}

abbrev no_client : Services → RpcClient State Message Value
no_client service = record {
  proxy = λ ms pattern message s. (rejected timeout_error, s);
  service = service;
  timeout_ms = 5000;
}

abbrev no_clients : Clients State
no_clients = record {
  auth = no_client Services.auth;
  catalog = no_client Services.catalog;
  order = no_client Services.order;
}

abbrev buyer : AuthUser
buyer = record { id = natural 7; email = string "ripley@cinema.io"; role = Role.user }

abbrev json : OrdersController.Reply → Value
json reply = null

order_call-Purchased_example :
    Purchased documented decimal movie_table order_table json 5000 three 7 with_alien (
      run
        (order_call documented
          (connected documented decimal movie_table order_table json timeout_error 5000 no_clients)
          (identified buyer 7)
          (create_order three))
        with_alien)
order_call-Purchased_example =
    order_call-Purchased documented decimal movie_table order_table json timeout_error 5000
      no_clients buyer three 7 with_alien movies_up orders_up three-IsCreateOrderDto (omega arith)
      (omega arith) stored-IsMovie
