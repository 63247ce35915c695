-- ===== src/Lib.antt =====
-- Cinema: the services of a ticket shop, in TypeScript on NestJS, TypeORM and PostgreSQL.
--
-- The auth service (apps/auth-service) keeps the accounts and signs tokens, the catalog service
-- (apps/catalog-service) keeps the movies, the order service (apps/order-service) keeps the orders
-- and asks the catalog for the movie of a purchase. The gateway (apps/api-gateway) checks the tokens
-- and the bodies of HTTP requests and passes these on, as messages over TCP. libs/shared has the
-- message patterns, the payloads, the environment, and the way of an exception from one service to
-- another.
--
--   Prelude        Boolean tests, lists and names of the library.
--   Runtime        what the frameworks provide: JavaScript values (Value), exceptions (Exceptions),
--                  `async` functions (Async), tables (Repository, Columns), a table in memory
--                  (Memory), decorators and the validation pipe (Validation).
--   Shared         libs/shared/src: Services (constants/services.ts), Role (auth/role.enum.ts),
--                  RpcError (rpc/rpc-error.ts, rpc/rpc-exceptions.filter.ts), RpcClient
--                  (rpc/rpc-client.ts), Health (rpc/health.controller.ts), Microservice
--                  (rpc/bootstrap-microservice.ts), Logging
--                  (interceptors/logging.interceptor.ts and the middleware of the gateway),
--                  Money (database/decimal.transformer.ts), Dtos (dtos; their decorators in
--                  Dtos/Schemas).
--   Config         the environment: EnvValidation (libs/shared/src/config/env.validation.ts),
--                  Schemas (apps/*/src/config), Wiring (rpcClientProvider of rpc/rpc-client.ts,
--                  rpc/bootstrap-microservice.ts, database/postgres.config.ts, the modules),
--                  DataSources (apps/*-service/src/database/data-source.ts).
--   Auth           apps/auth-service/src: User (entities/user.entity.ts and the migration),
--                  AuthService (auth.service.ts), AuthController (auth.controller.ts).
--   Catalog        apps/catalog-service/src: Movie (entities/movie.entity.ts and the migration),
--                  MoviesService (movies.service.ts), MoviesController (movies.controller.ts).
--   Orders         apps/order-service/src: Order (entities/order.entity.ts and the migration),
--                  OrdersService (orders.service.ts), OrdersController (orders.controller.ts),
--                  and what they promise of the orders (OrderBook).
--   Gateway        apps/api-gateway/src: Bearer and JwtAuthGuard (auth/jwt-auth.guard.ts,
--                  auth/roles.guard.ts), Routes (auth/auth.controller.ts,
--                  movies/movies.controller.ts, orders/orders.controller.ts), Bodies (the routes
--                  with a body, behind the pipe of setup.ts), Health (health/health.controller.ts).
--   System         the gateway, the order service and the catalog connected.
--   Tests          concrete tables, clients, requests and environments.
--
-- A method of a class is the function of the same name; the services that a class injects are
-- parameters. An `async` method is a tree of its awaits (Runtime/Async): each await is one atomic
-- call on the shared state, and other handlers may run between two of them. `run` runs a handler
-- alone; `interleave` runs several by a schedule, a list of the positions that are resumed, and
-- `promise_all` joins several by one. A schedule may be of any length and may stop early. What a
-- handler may do while others run is stated for each call by itself (Async/Rely) and then holds of
-- every schedule. No definition needs fuel but the text of a number (`show`), whose fuel is one
-- more than the number.
--
-- Third-party code is an interface: NestJS exceptions (`Nest`), TypeORM and PostgreSQL (`Repository`
-- with the table of the service: its column types, NOT NULL, CHECK and UNIQUE constraints and the
-- columns with `update: false`; `DataSource`), doubles and NUMERIC columns (`Arithmetic`), the TCP
-- client (`Proxy`), bcrypt and the JWT service (`Bcrypt`, `JwtService`, `TokenVerifier`),
-- class-validator and the validation pipe (`ClassValidator`, `ValidateSync`, `ValidationPipe`),
-- conversions of class-transformer (`Conversions`), the configuration (`ConfigService`), and the
-- clock and the logger (`Logger`).
-- `trim().toLowerCase()` is a function that the definitions take. The laws in these records state
-- documented behaviour. `documented`, `in_memory`, `decimal` and Tests/Validators meet the laws.
--
-- Handlers take typed payloads, in which numbers and ids are natural numbers and a decorator of
-- class-validator is a field of a predicate such as `IsCreateMovieDto`; Dtos/Schemas has the same
-- decorators as data, on JavaScript objects, and Dtos/Schemas/Typed leads from the one to the other.
-- Prices are decimal numbers as JSON shows them.
--
-- Not modelled: the registration of controllers, pipes, filters, interceptors and middleware with
-- NestJS, which has no logic of the program in it, and the log lines inside other handlers.
-- Queries and deletions are about ids in the range of their `integer` columns; above it PostgreSQL
-- raises 22003. Texts have no U+0000, which PostgreSQL refuses, and no variation selectors, which
-- `MaxLength` does not count. Of several violations in one row, that of the first column is the one
-- that a movie reports. `save` is one call, without the row lock of its transaction. A row that was
-- found has all columns: `select: false` is left out. So is `UpdateMoviePayload`, which the catalog
-- service validates around the changes to a movie.
pub mod Prelude
pub mod Runtime
pub mod Shared
pub mod Tests
pub mod Config
pub mod Gateway
pub mod Auth
pub mod Catalog
pub mod Orders
pub mod System
