-- ===== src/Tests/DeliveryExamples.antt =====
-- A message that reaches the order service through its pipe, interceptor and filter.
use cinema_microservices.Orders.OrdersController
use cinema_microservices.Tests.OrdersExamples.{orders, catalog, with_order}
use cinema_microservices.Tests.BodyExamples.{order_body, order_body-Conforms}
use cinema_microservices.Prelude.{◌≡◌, some, arith}
use cinema_microservices.Shared.Dtos.Orders.{CreateOrderDto, IsCreateOrderDto}
use cinema_microservices.Shared.Logging.{Logger}
use cinema_microservices.Runtime.Memory.Search.{Memory}
use cinema_microservices.Shared.Dtos.Schemas.Typed.{create_order_dto}
use cinema_microservices.Orders.Order.{OrderColumns}
use cinema_microservices.Runtime.Async.{run}
use cinema_microservices.System.Delivery.{receive_order, receive_order-with_user}
use cinema_microservices.Runtime.Exceptions.{documented}
use cinema_microservices.Shared.Money.Decimal.{decimal}
use cinema_microservices.Tests.Validators.{validation_pipe}
use cinema_microservices.Shared.Dtos.Schemas.OrderBody.{with_user}
use cinema_microservices.Runtime.Value.{number, natural}

-- A logger that writes nowhere.
abbrev silent : Logger (Memory OrderColumns)
silent = record { now = λ s. 0; log = λ line s. s; warn = λ line s. s; text = λ v. "" }

receive_order-with_user_example :
    (dto : CreateOrderDto) × (create_order_dto order_body ≡ some dto)
    × IsCreateOrderDto dto
    × ((run
          (receive_order documented decimal orders catalog silent validation_pipe
            (with_user order_body (number (natural 7))))
          with_order).0
        ≡ (run
            (OrdersController.serve documented decimal orders catalog
              (OrdersController.create (record { dto = dto; user_id = 7 })))
            with_order).0)
receive_order-with_user_example =
    receive_order-with_user documented decimal orders catalog silent validation_pipe order_body 7
      with_order order_body-Conforms (omega arith)
