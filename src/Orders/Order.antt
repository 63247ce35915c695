-- ===== src/Orders/Order.antt =====
-- apps/order-service/src/entities/order.entity.ts and the migration CreateOrders: the table
-- `orders`.
use cinema_microservices.Prelude.{ℕ, String, false, ltb}
use cinema_microservices.Runtime.Repository.{Row, Accepted, Repository, Table, stores}
use cinema_microservices.Shared.Money.{Arithmetic}
use cinema_microservices.Runtime.Columns.{
  ◌>>=◌, integer, varchar, smallint, in_numeric, check, non_negative,
}
use cinema_microservices.Runtime.Value.{Number}
use cinema_microservices.Shared.Dtos.Orders.{OrderStatus}

pub record OrderColumns : Type 0 where
  pub user_id : ℕ
  pub movie_id : ℕ
  pub movie_title : String
  pub movie_release_year : ℕ
  pub ticket_price : Number
  pub quantity : ℕ
  pub total_price : Number
  pub status : OrderStatus

abbrev pub Order : Type 0
Order = Row OrderColumns

-- The columns marked `update: false` keep their values.
abbrev pub keep_snapshot : OrderColumns → OrderColumns → OrderColumns
keep_snapshot old new = record old {
  user_id = new.user_id;
  movie_id = new.movie_id;
  status = new.status;
}

module _ (arithmetic : Arithmetic) where
  unfoldable pub accept_order : OrderColumns → Accepted OrderColumns
  accept_order d = do
    user ← integer d.user_id
    movie ← integer d.movie_id
    title ← varchar 255 d.movie_title
    year ← smallint d.movie_release_year
    price ← in_numeric (arithmetic.numeric 10 2 d.ticket_price)
    quantity ← smallint d.quantity
    total ← in_numeric (arithmetic.numeric 12 2 d.total_price)
    quantity ← check (ltb 0 quantity) quantity
    total ← check (non_negative total) total
    stores (record {
      user_id = user;
      movie_id = movie;
      movie_title = title;
      movie_release_year = year;
      ticket_price = price;
      quantity = quantity;
      total_price = total;
      status = d.status;
    })

  -- The table `orders` has no UNIQUE constraint but its primary key.
  abbrev pub orders_table : Table OrderColumns OrderColumns
  orders_table = record { accept = accept_order; clashes = λ a b. false; on_update = keep_snapshot }

  abbrev pub Orders : Type 0 → Type 0
  Orders S = Repository S OrderColumns OrderColumns orders_table
