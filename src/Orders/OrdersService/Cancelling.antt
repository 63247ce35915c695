-- ===== src/Orders/OrdersService/Cancelling.antt =====
-- `OrdersService.cancel` for the owner of an order: the two states of an order.
use cinema_microservices.Prelude.{
  if◌then◌else◌, ◌&&◌, ◌==◌, ◌≡◌, arith, ℕ, true, some, inl, inr, ◌∙◌, ap, subst, sym,
}
use cinema_microservices.Orders.Order.{accept_order, OrderColumns, Orders, Order, keep_snapshot}
use cinema_microservices.Runtime.Exceptions.{Nest}
use cinema_microservices.Shared.Money.{Arithmetic}
use cinema_microservices.Runtime.Repository.{stores}
use cinema_microservices.Shared.Dtos.Orders.{OrderStatus, cancelled, confirmed}
use cinema_microservices.Shared.RpcClient.{RpcClient}
use cinema_microservices.Shared.Dtos.Movies.{MovieResponse}
use cinema_microservices.Orders.OrdersService.{cancel, already_cancelled}
use cinema_microservices.Runtime.Async.{Settled, fulfilled, run, rejected}
use cinema_microservices.Orders.OrdersService.Ownership.{find_one_for_user_cases}
use cinema_microservices.Runtime.Async.Interleaving.{run-settle}

-- The columns are such as the table holds: saving them again changes nothing.
abbrev pub IsStored : Arithmetic → OrderColumns → Type 0
IsStored arithmetic c = accept_order arithmetic c ≡ stores c

IsStored-status :
    (arithmetic : Arithmetic) (c : OrderColumns) (status : OrderStatus)
    → IsStored arithmetic c
    → IsStored arithmetic (record c { status = status })
unfolding accept_order
IsStored-status arithmetic c status h = ground arith

-- Where only the status differs, the UPDATE writes the whole entity.
keep_snapshot-row :
    (old : OrderColumns) (new : Order)
    → new.columns ≡ record old { status = cancelled }
    → record new { columns = keep_snapshot old new.columns } ≡ new
keep_snapshot-row old new same =
    ap (λ (c : OrderColumns). record new { columns = c }) (ap (keep_snapshot old) same ∙ sym same)

module _ (nest : Nest) (arithmetic : Arithmetic) {S : Type 0} (orders : Orders arithmetic S)
    (catalog : RpcClient S ℕ MovieResponse) where
  -- A cancellation that went through.
  pub record Cancelled (o : Order) (s : S) (out : Settled Order × S) : Type 0 where
    pub order : Order
    pub result : out.0 ≡ fulfilled order
    pub same_id : order.id ≡ o.id
    pub columns : order.columns ≡ record (o.columns) { status = cancelled }
    pub rows : (j : ℕ) → orders.row out.1 j ≡ (if j == o.id then some order else orders.row s j)
    pub still_up : orders.is_up out.1 ≡ orders.is_up s

  -- The owner's cancellation of a cancelled order is a conflict and changes nothing.
  pub cancel_cancelled :
      (user_id order_id : ℕ) (s : S) (o : Order)
      → orders.is_up s ≡ true
      → orders.row s order_id ≡ some o
      → o.columns.user_id ≡ user_id
      → o.columns.status ≡ cancelled
      → run (cancel nest arithmetic orders catalog user_id order_id) s
        ≡ (rejected (already_cancelled nest order_id), s)
  unfolding cancel
  cancel_cancelled user_id order_id s o up there mine status =
      elim (find_one_for_user_cases nest arithmetic orders catalog user_id order_id s up) [
        | inl (o', e, there', id, user) ↦
            let same : o ≡ o' = cc in
            let status' : o'.columns.status ≡ cancelled = rw (← same) status in rw (e, status', run)
        | inr (e, foreign) ↦ absurd (foreign (o, there, mine))
      ]

  run-cancel_confirmed :
      (user_id order_id : ℕ) (s : S) (o : Order)
      → orders.is_up s ≡ true
      → orders.row s order_id ≡ some o
      → o.columns.user_id ≡ user_id
      → o.columns.status ≡ confirmed
      → run (cancel nest arithmetic orders catalog user_id order_id) s
        ≡ orders.save o.id o.created_at (record (o.columns) { status = cancelled }) s
  unfolding cancel
  run-cancel_confirmed user_id order_id s o up there mine status =
      elim (find_one_for_user_cases nest arithmetic orders catalog user_id order_id s up) [
        | inl (o', e, there', id, user) ↦
            let same : o ≡ o' = cc in
            let e' : orders.find_one_by (λ o. o.id == order_id && o.columns.user_id == user_id) s
                ≡ fulfilled (some o) =
              rw same e in
            rw (e', status, run)
              (let (r, s') =
                  orders.save o.id o.created_at (record (o.columns) { status = cancelled }) s in
                run-settle r s')
        | inr (e, foreign) ↦ absurd (foreign (o, there, mine))
      ]

  save-Cancelled :
      (s : S) (o : Order)
      → orders.is_up s ≡ true
      → orders.row s o.id ≡ some o
      → IsStored arithmetic o.columns
      → Cancelled o s (orders.save o.id o.created_at (record (o.columns) { status = cancelled }) s)
  save-Cancelled s o up there stored =
      let d : OrderColumns = record (o.columns) { status = cancelled } in
      let accepted = IsStored-status arithmetic o.columns cancelled stored in
      elim (orders.save_up o.id o.created_at d s o up there) [
        | inl updated ↦
            let same : updated.new.columns ≡ d = cc (accepted, updated.accepted) in
            record {
              order = updated.new;
              result = updated.result;
              same_id = updated.same_id;
              columns = same;
              rows = λ j.
                  updated.writes.0 j
                  ∙ ap (λ (new : Order). if j == o.id then some new else orders.row s j)
                      (keep_snapshot-row o.columns updated.new same);
              still_up = updated.writes.1;
            }
        | inr refused ↦ elim refused.reason [
          | inl (c, _, _, clash) ↦ cc (clash.clashing)
          | inr (violation, _) ↦ cc (accepted, violation)
        ]
      ]

  -- The owner's cancellation of a confirmed order changes its status and nothing else, in this row
  -- or in any other.
  pub cancel_confirmed :
      (user_id order_id : ℕ) (s : S) (o : Order)
      → orders.is_up s ≡ true
      → orders.row s order_id ≡ some o
      → o.columns.user_id ≡ user_id
      → o.columns.status ≡ confirmed
      → IsStored arithmetic o.columns
      → Cancelled o s (run (cancel nest arithmetic orders catalog user_id order_id) s)
  cancel_confirmed user_id order_id s o up there mine status stored =
      let id = orders.row_id s order_id o there in
      rw (run-cancel_confirmed user_id order_id s o up there mine status)
        (save-Cancelled s o up (subst (λ k. orders.row s k ≡ some o) (sym id) there) stored)

  -- An order is cancelled once: after a cancellation the next one is a conflict.
  pub cancel_twice :
      (user_id order_id : ℕ) (s : S) (o : Order)
      → orders.is_up s ≡ true
      → orders.row s order_id ≡ some o
      → o.columns.user_id ≡ user_id
      → o.columns.status ≡ confirmed
      → IsStored arithmetic o.columns
      → let s' = (run (cancel nest arithmetic orders catalog user_id order_id) s).1 in
        run (cancel nest arithmetic orders catalog user_id order_id) s'
        ≡ (rejected (already_cancelled nest order_id), s')
  cancel_twice user_id order_id s o up there mine status stored =
      let id = orders.row_id s order_id o there in
      let done = cancel_confirmed user_id order_id s o up there mine status stored in
      let s' = (run (cancel nest arithmetic orders catalog user_id order_id) s).1 in
      let own_row : (if order_id == o.id then some done.order else orders.row s order_id)
          ≡ some done.order =
        ground arith in
      cancel_cancelled user_id order_id s' done.order (done.still_up ∙ up)
        (done.rows order_id ∙ own_row) (ap (λ (c : OrderColumns). c.user_id) done.columns ∙ mine)
        (ap (λ (c : OrderColumns). c.status) done.columns)
