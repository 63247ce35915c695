-- ===== src/Gateway/Bodies.antt =====
-- The routes with a body, from the request as it comes: the guards, then the validation pipe of
-- `configureGateway` (setup.ts), then the handler (apps/api-gateway/src/movies/movies.controller.ts
-- and orders/orders.controller.ts).
use cinema_microservices.Gateway.Routes.{create_order, create_movie, register, login, update_movie}
use cinema_microservices.Runtime.Async.{◌>>=◌, ◌>>◌, Async, or_throw, run, settle}
use cinema_microservices.Shared.Role.{Role, AuthUser}
use cinema_microservices.Runtime.Value.{Value, undefined, Fields}
use cinema_microservices.Prelude.{[], ◌∷◌, ◌≡◌, ◌⊎◌, Option, String, some, inl, inr, ℕ}
use cinema_microservices.Runtime.Exceptions.{Nest, plain}
use cinema_microservices.Gateway.JwtAuthGuard.{TokenVerifier, authenticate, require_roles}
use cinema_microservices.Gateway.Routes.{Clients, order_call, public_call, admin_call}
use cinema_microservices.Shared.Dtos.Schemas.{
  Texts, create_order_schema, register_schema, create_movie_schema, login_schema,
  update_movie_schema,
}
use cinema_microservices.Runtime.Validation.{ClassValidator, ValidationPipe}
use cinema_microservices.Gateway.Access.{Denied, Verified, authenticate_cases}
use cinema_microservices.Shared.Dtos.Schemas.Typed.{
  create_order_dto, register_dto, create_movie_dto, login_dto, update_movie_dto,
}
use cinema_microservices.Shared.Dtos.Orders.{CreateOrderDto, IsCreateOrderDto}
use cinema_microservices.Runtime.Validation.Cases.{transform_cases}
use cinema_microservices.Shared.Dtos.Schemas.OrderBody.{create_order_dto-Conforms}

-- A body as the class of its parameter. No body that the pipe has let through is refused here.
abbrev pub as_class : {S A : Type 0} → Option A → Async S A
as_class dto = or_throw dto (plain undefined)

module _ (nest : Nest) {S : Type 0} (jwt : TokenVerifier S) (clients : Clients S) (texts : Texts)
    {validator : ClassValidator} (pipe : ValidationPipe validator) where
  -- `POST /movies`
  unfoldable pub post_movies : Option String → Fields → Async S Value
  unfolding authenticate require_roles
  post_movies header body = do
    user ← authenticate nest jwt header
    require_roles nest (Role.admin ∷ []) (some user)
    fields ← settle (pipe.transform (create_movie_schema texts) body)
    dto ← as_class (create_movie_dto fields)
    admin_call nest clients (create_movie dto)

  -- `POST /orders`
  unfoldable pub post_orders : Option String → Fields → Async S Value
  unfolding authenticate
  post_orders header body = do
    user ← authenticate nest jwt header
    fields ← settle (pipe.transform create_order_schema body)
    dto ← as_class (create_order_dto fields)
    order_call nest clients user (create_order dto)

  -- `POST /auth/register`
  unfoldable pub post_register : Fields → Async S Value
  post_register body = do
    fields ← settle (pipe.transform (register_schema texts) body)
    dto ← as_class (register_dto fields)
    public_call nest clients (register dto)

  -- `POST /auth/login`
  unfoldable pub post_login : Fields → Async S Value
  post_login body = do
    fields ← settle (pipe.transform (login_schema texts) body)
    dto ← as_class (login_dto fields)
    public_call nest clients (login dto)

  -- `PATCH /movies/:id`, after `ParseIntPipe`.
  unfoldable pub patch_movies : Option String → ℕ → Fields → Async S Value
  unfolding authenticate require_roles
  patch_movies header id body = do
    user ← authenticate nest jwt header
    require_roles nest (Role.admin ∷ []) (some user)
    fields ← settle (pipe.transform (update_movie_schema texts) body)
    dto ← as_class (update_movie_dto fields)
    admin_call nest clients (update_movie id dto)

  -- A body is refused with 400 before any service is called, or it is an order within the bounds.
  validated_order :
      (body : Fields) (s : S) (user : AuthUser)
      → let out =
          run
            (settle (pipe.transform create_order_schema body) >>= (λ fields.
              as_class (create_order_dto fields)
              >>= (λ dto. order_call nest clients user (create_order dto))))
            s in
        Denied nest jwt clients 400 s out
        ⊎ ((dto : CreateOrderDto) × IsCreateOrderDto dto
            × (out ≡ run (order_call nest clients user (create_order dto)) s))
  validated_order body s user = elim (transform_cases validator pipe create_order_schema body) [
    | inr (e, refused, status) ↦
        inl (record { exception = e; result = rw (refused, run); has_status = status })
    | inl (c, passed) ↦
        let (dto, typed, valid) = create_order_dto-Conforms validator _ c in
        inr (dto, valid, rw (passed, typed, run))
  ]

  -- An order reaches the order service only with a verified token, for the user of that token, and
  -- with a body within the bounds of its decorators; otherwise the answer is 401 or 400 and no
  -- service is called.
  pub post_orders_up :
      (header : Option String) (body : Fields) (s : S)
      → let out = run (post_orders header body) s in
        Denied nest jwt clients 401 s out
        ⊎ ((user : AuthUser) × Verified nest jwt clients header s user
            × (Denied nest jwt clients 400 s out
                ⊎ ((dto : CreateOrderDto) × IsCreateOrderDto dto
                    × (out ≡ run (order_call nest clients user (create_order dto)) s))))
  unfolding post_orders
  post_orders_up header body s =
      elim (authenticate_cases nest jwt clients header s (λ user.
        settle (pipe.transform create_order_schema body) >>= (λ fields.
          as_class (create_order_dto fields)
          >>= (λ dto. order_call nest clients user (create_order dto))))) [
            | inl denied ↦ inl denied
            | inr (user, verified, e) ↦ inr (user, verified, rw e (validated_order body s user))
          ]
