-- ===== src/Gateway/Routes.antt =====
-- The controllers of apps/api-gateway/src: auth/auth.controller.ts, movies/movies.controller.ts and
-- orders/orders.controller.ts. A route is the handler's name with its parameters after the pipes.
use cinema_microservices.Shared.Role.{Role}
use cinema_microservices.Runtime.Value.{Value, undefined}
use cinema_microservices.Runtime.Async.{return}
use cinema_microservices.Runtime.Async.{◌>>=◌, ◌>>◌, Async}
use cinema_microservices.Shared.Services
use cinema_microservices.Prelude.{[], ◌∷◌, ℕ, Option, String, some}
use cinema_microservices.Runtime.Exceptions.{Nest}
use cinema_microservices.Shared.Dtos.Accounts.{RegisterDto, LoginDto}
use cinema_microservices.Shared.Dtos.Movies.{CreateMovieDto, UpdateMovieDto}
use cinema_microservices.Shared.Dtos.Orders.{CreateOrderDto}
use cinema_microservices.Shared.RpcClient.{RpcClient, send}
use cinema_microservices.Gateway.JwtAuthGuard.{TokenVerifier, authenticate, require_roles}
use cinema_microservices.Shared.Role.{AuthUser}
use cinema_microservices.Runtime.Value.{Number}
use cinema_microservices.Shared.Services.{auth_pattern, catalog_pattern, order_pattern}

pub data OrderRoute : Type 0 where
  create_order : CreateOrderDto → OrderRoute
  find_orders : OrderRoute
  find_order : ℕ → OrderRoute
  cancel_order : ℕ → OrderRoute

pub data AdminRoute : Type 0 where
  create_movie : CreateMovieDto → AdminRoute
  update_movie : ℕ → UpdateMovieDto → AdminRoute
  delete_movie : ℕ → AdminRoute

pub data PublicRoute : Type 0 where
  register : RegisterDto → PublicRoute
  login : LoginDto → PublicRoute
  find_movies : PublicRoute
  find_movie : ℕ → PublicRoute

pub data Route : Type 0 where
  public : PublicRoute → Route
  me : Route
  admins : AdminRoute → Route
  orders : OrderRoute → Route

-- What the gateway sends to a service.
pub data Message : Type 0 where
  nothing : Message
  registration : RegisterDto → Message
  credentials : LoginDto → Message
  id : ℕ → Message
  movie : CreateMovieDto → Message
  changes : ℕ → UpdateMovieDto → Message
  user_id : Number → Message
  order : CreateOrderDto → Number → Message
  user_order : Number → ℕ → Message

pub record Clients (S : Type 0) : Type 0 where
  pub auth : RpcClient S Message Value
  pub catalog : RpcClient S Message Value
  pub order : RpcClient S Message Value

abbrev pub public_call : {S : Type 0} → Nest → Clients S → PublicRoute → Async S Value
public_call nest clients (register dto) =
    send nest clients.auth (auth_pattern Services.register) (registration dto)
public_call nest clients (login dto) =
    send nest clients.auth (auth_pattern Services.login) (credentials dto)
public_call nest clients find_movies =
    send nest clients.catalog (catalog_pattern Services.find_all_movies) nothing
public_call nest clients (find_movie i) =
    send nest clients.catalog (catalog_pattern Services.find_one_movie) (id i)

abbrev pub admin_call : {S : Type 0} → Nest → Clients S → AdminRoute → Async S Value
admin_call nest clients (create_movie dto) =
    send nest clients.catalog (catalog_pattern Services.create_movie) (movie dto)
admin_call nest clients (update_movie i dto) =
    send nest clients.catalog (catalog_pattern Services.update_movie) (changes i dto)
admin_call nest clients (delete_movie i) =
    send nest clients.catalog (catalog_pattern Services.delete_movie) (id i) >> return undefined

-- Every route of orders passes on the id of the authenticated user.
abbrev pub order_call : {S : Type 0} → Nest → Clients S → AuthUser → OrderRoute → Async S Value
order_call nest clients user (create_order dto) =
    send nest clients.order (order_pattern Services.create_order) (order dto user.id)
order_call nest clients user find_orders =
    send nest clients.order (order_pattern Services.find_user_orders) (user_id user.id)
order_call nest clients user (find_order i) =
    send nest clients.order (order_pattern Services.find_user_order) (user_order user.id i)
order_call nest clients user (cancel_order i) =
    send nest clients.order (order_pattern Services.cancel_user_order) (user_order user.id i)

module _ (nest : Nest) {S : Type 0} (jwt : TokenVerifier S) (clients : Clients S) where
  -- A request for a route, with its `Authorization` header: the guards of the route, then its
  -- handler.
  unfoldable pub serve : Route → Option String → Async S Value
  unfolding authenticate require_roles
  serve (public route) header = public_call nest clients route
  serve me header = do
    user ← authenticate nest jwt header
    send nest clients.auth (auth_pattern Services.get_profile) (user_id user.id)
  serve (admins route) header = do
    user ← authenticate nest jwt header
    require_roles nest (Role.admin ∷ []) (some user)
    admin_call nest clients route
  serve (orders route) header = do
    user ← authenticate nest jwt header
    order_call nest clients user route
