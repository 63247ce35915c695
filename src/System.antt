-- ===== src/System.antt =====
-- The gateway, the order service and the catalog service, connected: a call of a service runs its
-- handler (apps/*/src/*.controller.ts) on the shared state. The transport, which is third-party
-- code, loses no message here; Shared/RpcClient has what happens where it does.
pub mod Replies
pub mod Ordering
pub mod Delivery
use cinema_microservices.Gateway.Routes.{Message, Clients}
use cinema_microservices.Shared.Services.{Services, order_pattern, cancel_user_order}
use cinema_microservices.Runtime.Async.{◌>>=◌, Async, return, throw, run, or_throw}
use cinema_microservices.Catalog.MoviesController
use cinema_microservices.Orders.OrdersController
use cinema_microservices.Catalog.Movie.{Movie, Movies}
use cinema_microservices.Gateway.Routes.{Message}
use cinema_microservices.Prelude.{ℕ, Option, some, none, if◌then◌else◌, ◌===◌, String}
use cinema_microservices.Runtime.Exceptions.{Nest, plain, Thrown}
use cinema_microservices.Shared.Dtos.Movies.{MovieResponse}
use cinema_microservices.Shared.Money.{Arithmetic}
use cinema_microservices.Orders.Order.{Orders}
use cinema_microservices.Runtime.Value.{Value, undefined, number}
use cinema_microservices.Shared.RpcClient.{RpcClient}
use cinema_microservices.Shared.Dtos.Schemas.Typed.{natural_of}

-- The JSON of a movie, as its `MovieResponse`.
abbrev pub movie_response : Movie → MovieResponse
movie_response o = record {
  id = o.id;
  title = o.columns.title;
  description = o.columns.description;
  release_year = o.columns.release_year;
  duration_minutes = o.columns.duration_minutes;
  ticket_price = o.columns.ticket_price;
  created_at = o.created_at;
  updated_at = o.updated_at;
}

-- The reply of `findOne` is a movie.
abbrev pub as_movie : {S : Type 0} → MoviesController.Reply → Async S MovieResponse
as_movie (MoviesController.movie o) = return (movie_response o)
as_movie reply = throw (plain undefined)

-- The payload that the order service reads from a message of the gateway.
abbrev pub with_user_id :
    (ℕ → OrdersController.Request) → Option ℕ → Option OrdersController.Request
with_user_id request none = none
with_user_id request (some user_id) = some (request user_id)

abbrev pub request_of : String → Message → Option OrdersController.Request
request_of pattern (Message.order dto user) =
    with_user_id (λ user_id. OrdersController.create (record { dto = dto; user_id = user_id }))
      (natural_of (number user))
request_of pattern (Message.user_id user) =
    with_user_id OrdersController.find_all (natural_of (number user))
request_of pattern (Message.user_order user order_id) =
    with_user_id
      (λ user_id.
        if pattern === order_pattern cancel_user_order
        then OrdersController.cancel (record { user_id = user_id; order_id = order_id })
        else OrdersController.find_one (record { user_id = user_id; order_id = order_id }))
      (natural_of (number user))
request_of pattern message = none

module _ (nest : Nest) (arithmetic : Arithmetic) {S : Type 0} (movies : Movies arithmetic S)
    (orders : Orders arithmetic S) where
  -- The order service's client of the catalog.
  unfoldable pub catalog_client : ℕ → RpcClient S ℕ MovieResponse
  catalog_client timeout_ms = record {
    proxy = λ ms pattern id s.
        run
          (MoviesController.serve nest arithmetic movies (MoviesController.find_one id)
            >>= as_movie)
          s;
    service = Services.catalog;
    timeout_ms = timeout_ms;
  }

  -- The gateway's client of the order service, for the requests that `request_of` reads. `json` is
  -- the serialization of NestJS, and `refusal` what its pipe answers to any other message.
  unfoldable pub order_client :
      (OrdersController.Reply → Value) → Thrown → ℕ → RpcClient S Message Value
  unfolding catalog_client
  order_client json refusal timeout_ms = record {
    proxy = λ ms pattern message s.
        run
          (or_throw (request_of pattern message) refusal >>= (λ request.
            OrdersController.serve nest arithmetic orders (catalog_client timeout_ms) request
            >>= (λ reply. return (json reply))))
          s;
    service = Services.order;
    timeout_ms = timeout_ms;
  }

  -- The gateway with this client of the order service.
  unfoldable pub connected : (OrdersController.Reply → Value) → Thrown → ℕ → Clients S → Clients S
  unfolding order_client
  connected json refusal timeout_ms clients = record clients {
    order = order_client json refusal timeout_ms;
  }
