-- ===== src/Gateway/Access.antt =====
-- Who reaches the services through the gateway.
use cinema_microservices.Gateway.Routes.{
  Message, create_order, find_orders, find_order, cancel_order,
}
use cinema_microservices.Gateway.Routes.{
  orders, serve, OrderRoute, AdminRoute, admins, admin_call, order_call,
}
use cinema_microservices.Runtime.Async.{◌>>=◌, ◌>>◌}
use cinema_microservices.Shared.Role.{Role, AuthUser}
use cinema_microservices.Prelude.{
  [], refl, ◌∙◌, ◌∷◌, ◌≡◌, ◌⊎◌, Option, ℕ, String, some, Option-cases, inl, inr, none,
}
use cinema_microservices.Runtime.Async.{◌>>◌, Settled, Async, rejected, run, fulfilled}
use cinema_microservices.Runtime.Exceptions.{Nest, HttpException, http_exception}
use cinema_microservices.Gateway.JwtAuthGuard.{
  TokenVerifier, authenticate, auth_user, require_roles,
}
use cinema_microservices.Gateway.Routes.{Clients}
use cinema_microservices.Runtime.Value.{Value, natural, Number}
use cinema_microservices.Gateway.Bearer.{extract_bearer_token}
use cinema_microservices.Shared.RpcClient.{send}
use cinema_microservices.Shared.Dtos.Orders.{CreateOrderDto}

-- The message of each route of orders, for the user with this id.
pub data Asks (user : Number) : OrderRoute → String → Message → Type 0 where
  create :
      (dto : CreateOrderDto) → Asks user (create_order dto) "orders.create" (Message.order dto user)
  find_all : Asks user find_orders "orders.find_by_user" (Message.user_id user)
  find_one :
      (i : ℕ) → Asks user (find_order i) "orders.find_one_by_user" (Message.user_order user i)
  cancel : (i : ℕ) → Asks user (cancel_order i) "orders.cancel" (Message.user_order user i)

module _ (nest : Nest) {S : Type 0} (jwt : TokenVerifier S) (clients : Clients S) where
  -- The header has a token that the verifier accepts, and the payload is of this user.
  pub record Verified (header : Option String) (s : S) (user : AuthUser) : Type 0 where
    pub token : String
    pub payload : Value
    pub extracted : extract_bearer_token header ≡ some token
    pub accepted : jwt.verify_async token s ≡ fulfilled payload
    pub attached : auth_user payload ≡ some user

  -- The answer of a guard, before any service was called.
  pub record Denied (status : ℕ) (s : S) (out : Settled Value × S) : Type 0 where
    pub exception : HttpException
    pub result : out ≡ (rejected (http_exception exception), s)
    pub has_status : exception.status ≡ natural status

  module _ (header : Option String) (s : S) (rest : AuthUser → Async S Value) where
    after_payload :
        (token : String) (payload : Value) (found : Option AuthUser)
        → extract_bearer_token header ≡ some token
        → jwt.verify_async token s ≡ fulfilled payload
        → auth_user payload ≡ found
        → Denied 401 s (run (authenticate nest jwt header >>= rest) s)
          ⊎ ((user : AuthUser) × Verified header s user
              × (run (authenticate nest jwt header >>= rest) s ≡ run (rest user) s))
    unfolding authenticate
    after_payload token payload none t v u = inl (record {
      exception = nest.unauthorized "Invalid token payload";
      result = rw (t, v, u, run);
      has_status = nest.unauthorized_status _;
    })
    after_payload token payload (some user) t v u = inr (
      user,
      record { token = token; payload = payload; extracted = t; accepted = v; attached = u },
      rw (t, v, u, run),
    )

    after_token :
        (token : String) (verified : Settled Value)
        → extract_bearer_token header ≡ some token
        → jwt.verify_async token s ≡ verified
        → Denied 401 s (run (authenticate nest jwt header >>= rest) s)
          ⊎ ((user : AuthUser) × Verified header s user
              × (run (authenticate nest jwt header >>= rest) s ≡ run (rest user) s))
    unfolding authenticate
    after_token token (fulfilled payload) t v =
        after_payload token payload (auth_user payload) t v refl
    after_token token (rejected e) t v = inl (record {
      exception = nest.unauthorized "Invalid or expired token";
      result = rw (t, v, run);
      has_status = nest.unauthorized_status _;
    })

    -- The guard lets a request through with the user of its token, or answers 401 at once.
    pub authenticate_cases :
        Denied 401 s (run (authenticate nest jwt header >>= rest) s)
        ⊎ ((user : AuthUser) × Verified header s user
            × (run (authenticate nest jwt header >>= rest) s ≡ run (rest user) s))
    unfolding authenticate
    authenticate_cases = elim (Option-cases (extract_bearer_token header)) [
      | inl missing ↦ inl (record {
        exception = nest.unauthorized "Missing bearer token";
        result = rw (missing, run);
        has_status = nest.unauthorized_status _;
      })
      | inr (token, t) ↦ after_token token (jwt.verify_async token s) t refl
    ]

  -- A request for orders reaches the order service only with a verified token, and then as the one
  -- message for its route that carries the id of the user of that token; otherwise the answer is
  -- 401 and no service is called.
  pub serve-orders :
      (route : OrderRoute) (header : Option String) (s : S)
      → Denied 401 s (run (serve nest jwt clients (orders route) header) s)
        ⊎ ((user : AuthUser) × Verified header s user
            × (pattern : String) × (message : Message) × Asks user.id route pattern message
            × (run (serve nest jwt clients (orders route) header) s
                ≡ run (send nest clients.order pattern message) s))
  unfolding serve
  serve-orders route header s =
      elim (authenticate_cases header s (λ user. order_call nest clients user route)) [
        | inl denied ↦ inl denied
        | inr (user, verified, e) ↦
            let (pattern, message, asks, sent) = asked user route e in
            inr (user, verified, pattern, message, asks, sent)
      ]
    where
      asked :
          (user : AuthUser) (route' : OrderRoute)
          → run (serve nest jwt clients (orders route) header) s
            ≡ run (order_call nest clients user route') s
          → (pattern : String) × (message : Message) × Asks user.id route' pattern message
            × (run (serve nest jwt clients (orders route) header) s
                ≡ run (send nest clients.order pattern message) s)
      asked user (create_order dto) e = ("orders.create", Message.order dto user.id, create dto, e)
      asked user find_orders e = ("orders.find_by_user", Message.user_id user.id, find_all, e)
      asked user (find_order i) e =
          ("orders.find_one_by_user", Message.user_order user.id i, find_one i, e)
      asked user (cancel_order i) e = ("orders.cancel", Message.user_order user.id i, cancel i, e)

  -- A request that changes the catalog reaches it only with the verified token of an admin;
  -- otherwise the answer is 401 without a valid token and 403 with the token of a regular user,
  -- and no service is called.
  pub serve-admins :
      (route : AdminRoute) (header : Option String) (s : S)
      → let out = run (serve nest jwt clients (admins route) header) s in
        Denied 401 s out
        ⊎ ((user : AuthUser) × Verified header s user
            × (((user.role ≡ Role.user) × Denied 403 s out)
                ⊎ ((user.role ≡ Role.admin) × (out ≡ run (admin_call nest clients route) s))))
  unfolding serve require_roles
  serve-admins route header s =
      let rest : AuthUser → Async S Value =
        λ user. require_roles nest (Role.admin ∷ []) (some user) >> admin_call nest clients route in
      elim (authenticate_cases header s rest) [
        | inl denied ↦ inl denied
        | inr (user, verified, e) ↦ inr (user, verified, by_role user user.role refl e)
      ]
    where
      by_role :
          (user : AuthUser) (role : Role)
          → user.role ≡ role
          → run (serve nest jwt clients (admins route) header) s
            ≡ run
                (require_roles nest (Role.admin ∷ []) (some user) >> admin_call nest clients route)
                s
          → ((user.role ≡ Role.user)
              × Denied 403 s (run (serve nest jwt clients (admins route) header) s))
            ⊎ ((user.role ≡ Role.admin)
                × (run (serve nest jwt clients (admins route) header) s
                    ≡ run (admin_call nest clients route) s))
      by_role user Role.user r e = inl (
        r,
        record {
          exception = nest.forbidden "Insufficient permissions";
          result = e ∙ rw (r, run);
          has_status = nest.forbidden_status _;
        },
      )
      by_role user Role.admin r e = inr (r, e ∙ rw r refl)
