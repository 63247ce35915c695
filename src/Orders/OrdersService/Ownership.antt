-- ===== src/Orders/OrdersService/Ownership.antt =====
-- Reading and cancelling an order on behalf of a user.
use cinema_microservices.Prelude.{
  ◌&&◌, ◌==◌, ◌≡◌, ◌⊎◌, ℕ, true, some, none, Option, arith, inl, subst, inr,
}
use cinema_microservices.Runtime.Exceptions.{Nest}
use cinema_microservices.Shared.Money.{Arithmetic}
use cinema_microservices.Orders.Order.{Orders, Order, orders_table}
use cinema_microservices.Shared.RpcClient.{RpcClient}
use cinema_microservices.Shared.Dtos.Movies.{MovieResponse}
use cinema_microservices.Orders.OrdersService.{find_one_for_user, cancel, order_not_found}
use cinema_microservices.Runtime.Async.{fulfilled, run, rejected}
use cinema_microservices.Runtime.Repository.{Finds}

module _ (nest : Nest) (arithmetic : Arithmetic) {S : Type 0} (orders : Orders arithmetic S)
    (catalog : RpcClient S ℕ MovieResponse) where
  -- The user has an order with this id.
  abbrev pub Owns : S → ℕ → ℕ → Type 0
  Owns s user_id order_id =
      (o : Order) × (orders.row s order_id ≡ some o) × (o.columns.user_id ≡ user_id)

  -- What the lookup answers, with the database up.
  pub find_one_for_user_cases :
      (user_id order_id : ℕ) (s : S)
      → orders.is_up s ≡ true
      → let found = orders.find_one_by (λ o. o.id == order_id && o.columns.user_id == user_id) s in
        ((o : Order) × (found ≡ fulfilled (some o))
          × (orders.row s order_id ≡ some o)
          × (o.id ≡ order_id)
          × (o.columns.user_id ≡ user_id))
        ⊎ ((found ≡ fulfilled none) × ¬ Owns s user_id order_id)
  find_one_for_user_cases user_id order_id s up =
      cases (orders.find_one_by_up (λ o. o.id == order_id && o.columns.user_id == user_id) s up)
    where
      cases :
          (o : Option Order) × (orders.find_one_by
                (λ o. o.id == order_id && o.columns.user_id == user_id)
                s
              ≡ fulfilled o)
            × Finds
                (orders_table arithmetic)
                orders.row
                orders.is_up
                (λ o. o.id == order_id && o.columns.user_id == user_id)
                s
                o
          → ((o : Order) × (orders.find_one_by
                  (λ o. o.id == order_id && o.columns.user_id == user_id)
                  s
                ≡ fulfilled (some o))
              × (orders.row s order_id ≡ some o)
              × (o.id ≡ order_id)
              × (o.columns.user_id ≡ user_id))
            ⊎ ((orders.find_one_by (λ o. o.id == order_id && o.columns.user_id == user_id) s
                  ≡ fulfilled none)
                × ¬ Owns s user_id order_id)
      cases (some o, e, (there, fits)) =
          let id : o.id ≡ order_id = ground arith in
          let user : o.columns.user_id ≡ user_id = ground arith in
          inl (o, e, subst (λ k. orders.row s k ≡ some o) id there, id, user)
      cases (none, e, none_fits) = inr (
        e,
        λ (o, there, user).
            let id = orders.row_id s order_id o there in
            let fails = none_fits order_id o there in ground arith,
      )

  -- To a user who does not own the order, reading it and cancelling it give the same answer as for
  -- an id that was never used, and change nothing.
  pub foreign_order :
      (user_id order_id : ℕ) (s : S)
      → orders.is_up s ≡ true
      → ¬ Owns s user_id order_id
      → (run (find_one_for_user nest arithmetic orders catalog user_id order_id) s
          ≡ (rejected (order_not_found nest order_id), s))
        × (run (cancel nest arithmetic orders catalog user_id order_id) s
            ≡ (rejected (order_not_found nest order_id), s))
  unfolding find_one_for_user cancel
  foreign_order user_id order_id s up foreign =
      elim (find_one_for_user_cases user_id order_id s up) [
        | inl (o, e, there, id, user) ↦ absurd (foreign (o, there, user))
        | inr (e, missing) ↦ (rw (e, run), rw (e, run))
      ]
