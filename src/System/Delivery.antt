-- ===== src/System/Delivery.antt =====
-- A message of the gateway on its way into the order service: the pipe, the interceptor and the
-- filter around the handler of `orders.create`.
use cinema_microservices.Shared.Services.{create_order, order_pattern}
use cinema_microservices.Orders.OrdersController
use cinema_microservices.Prelude.{refl, ◌∙◌, ◌≡◌, ◌≤◌, String, ℕ, arith, ap, some, subst, sym}
use cinema_microservices.Runtime.Exceptions.{Nest}
use cinema_microservices.Runtime.Validation.{
  to_instance, transformed, Schema, ClassValidator, ValidationPipe, Conforms,
}
use cinema_microservices.Shared.Dtos.Schemas.{create_order_payload_schema, create_order_schema}
use cinema_microservices.Shared.Money.{Arithmetic}
use cinema_microservices.Orders.Order.{Orders}
use cinema_microservices.Runtime.Value.{Fields, Value, field, end, number, natural}
use cinema_microservices.Shared.RpcClient.{RpcClient}
use cinema_microservices.Shared.Dtos.Movies.{MovieResponse}
use cinema_microservices.Shared.Logging.{Logger}
use cinema_microservices.Shared.Microservice.{
  configure_microservice, configure_microservice-Conforms,
}
use cinema_microservices.Runtime.Async.{Async, run, fulfilled}
use cinema_microservices.Shared.Dtos.Orders.{CreateOrderDto, IsCreateOrderDto}
use cinema_microservices.Shared.Dtos.Schemas.Typed.{create_order_dto, create_order_payload}
use cinema_microservices.Shared.Dtos.Schemas.OrderBody.{with_user, create_order_payload-with_user}

plain_instance :
    (schema : Schema) (fs : Fields)
    → ((k : String) (v : Value) → transformed schema k v ≡ v)
    → to_instance schema fs ≡ fs
unfolding to_instance
plain_instance schema end h = refl
plain_instance schema (field k v rest) h =
    ap (λ w. field k w (to_instance schema rest)) (h k v)
    ∙ ap (field k v) (plain_instance schema rest h)

-- No property of an order is transformed.
order_transformed : (k : String) (v : Value) → transformed create_order_payload_schema k v ≡ v
unfolding transformed create_order_payload_schema create_order_schema
order_transformed k v = ground arith

module _ (nest : Nest) (arithmetic : Arithmetic) {S : Type 0} (orders : Orders arithmetic S)
    (catalog : RpcClient S ℕ MovieResponse) (logger : Logger S) {validator : ClassValidator}
    (pipe : ValidationPipe validator) where
  -- The order service on a message of the pattern `orders.create`.
  unfoldable pub receive_order : Fields → Async S OrdersController.Reply
  unfolding configure_microservice
  receive_order =
      configure_microservice logger pipe (order_pattern create_order) create_order_payload_schema
        create_order_payload
        (λ payload.
          OrdersController.handle nest arithmetic orders catalog (OrdersController.create payload))

  -- A body that passed the validation of the gateway as an order and is sent on with the id of the
  -- user passes the validation of the order service, and gets the answer that the handler behind
  -- the filter gives to an order within the bounds, with the movie and the quantity of the body,
  -- for exactly this user.
  pub receive_order-with_user :
      (fs : Fields) (user_id : ℕ) (s : S)
      → Conforms validator create_order_schema fs
      → 1 ≤ user_id
      → (dto : CreateOrderDto) × (create_order_dto fs ≡ some dto)
        × IsCreateOrderDto dto
        × ((run (receive_order (with_user fs (number (natural user_id)))) s).0
            ≡ (run
                (OrdersController.serve nest arithmetic orders catalog
                  (OrdersController.create (record { dto = dto; user_id = user_id })))
                s).0)
  unfolding receive_order OrdersController.serve
  receive_order-with_user fs user_id s c positive =
      let message = with_user fs (number (natural user_id)) in
      let (conforms, dto, read, payload, valid) =
        create_order_payload-with_user validator fs user_id c positive in
      let same = plain_instance create_order_payload_schema message order_transformed in
      let passed =
        pipe.transform_conforming create_order_payload_schema message
          (subst (λ x. Conforms validator create_order_payload_schema x) (sym same) conforms)
        ∙ ap (λ x. fulfilled x) same in
      (
        dto,
        read,
        valid,
        configure_microservice-Conforms logger pipe (order_pattern create_order)
            create_order_payload_schema create_order_payload
            (λ payload.
              OrdersController.handle nest arithmetic orders catalog
                (OrdersController.create payload))
            message message (record { dto = dto; user_id = user_id }) s passed payload,
      )
