-- ===== src/Shared/Dtos/Orders.antt =====
-- libs/shared/src/dtos/orders: payloads and responses of the order service.
use cinema_microservices.Prelude.{◌≤◌, Bool, ℕ, false, true}

abbrev pub max_tickets_per_order : ℕ
max_tickets_per_order = 10

pub record CreateOrderDto : Type 0 where
  pub movie_id : ℕ
  pub quantity : ℕ

-- The decorators of `CreateOrderDto`.
pub record IsCreateOrderDto (dto : CreateOrderDto) : Type 0 where
  pub movie_id_positive : 1 ≤ dto.movie_id
  pub quantity_min : 1 ≤ dto.quantity
  pub quantity_max : dto.quantity ≤ max_tickets_per_order

-- The gateway adds the id of the authenticated user.
pub record CreateOrderPayload : Type 0 where
  pub dto : CreateOrderDto
  pub open dto use *
  pub user_id : ℕ

pub record UserOrderPayload : Type 0 where
  pub user_id : ℕ
  pub order_id : ℕ

pub data OrderStatus : Type 0 where
  confirmed cancelled : OrderStatus

-- `status === OrderStatus.CANCELLED`
abbrev pub is_cancelled : OrderStatus → Bool
is_cancelled confirmed = false
is_cancelled cancelled = true
