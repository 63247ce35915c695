-- ===== src/Orders/OrderBook/Writes.antt =====
-- The table `orders` as an order book: what the queries of the order service make of the book.
use mathlib.Core.Option
use cinema_microservices.Orders.OrderBook.{place, cancel, Sets, Reach-Evolves, Evolves-refl}
use cinema_microservices.Prelude.{
  if◌then◌else◌, refl, ◌==◌, ◌∙◌, ◌≡◌, ◌≤◌, ◌⊎◌, Bool-cases, ap, arith, inl, ℕ, inr, sym, some,
  subst, ==_iff, Bool, Option-cases,
}
use cinema_microservices.Orders.Order.{
  OrderColumns, accept_order, Orders, Order, keep_snapshot, orders_table,
}
use cinema_microservices.Shared.Dtos.Orders.{OrderStatus, cancelled, confirmed}
use cinema_microservices.Shared.Money.{Arithmetic}
use cinema_microservices.Runtime.Repository.{stores, Finds}
use cinema_microservices.Orders.OrderBook.{Book, Reach, done, Reach-trans, next, Evolves, place}
use cinema_microservices.Runtime.Async.Rely.{IsPreorder}
use cinema_microservices.Runtime.Async.{fulfilled}

-- The columns that a save passes on as they are.
accept_order-parts :
    (arithmetic : Arithmetic) (d c : OrderColumns)
    → accept_order arithmetic d ≡ stores c
    → (c.user_id ≡ d.user_id) × (c.movie_id ≡ d.movie_id) × (c.status ≡ d.status) × (1 ≤ c.quantity)
unfolding accept_order
accept_order-parts arithmetic d c h = ground arith

-- An order that is cancelled already stays as it is.
cancel_again : (c : OrderColumns) → c.status ≡ cancelled → record c { status = cancelled } ≡ c
cancel_again c h = ap (λ s. record c { status = s }) (sym h)

status_cases : (s : OrderStatus) → (s ≡ confirmed) ⊎ (s ≡ cancelled)
status_cases confirmed = inl refl
status_cases cancelled = inr refl

module _ (arithmetic : Arithmetic) {S : Type 0} (orders : Orders arithmetic S) where
  -- What a client sees of the table: the columns of each order.
  abbrev pub book : S → Book
  book s id = Option.map (λ (o : Order). o.columns) (orders.row s id)

  abbrev pub Refines : S → S → Type 0
  Refines s s' = Reach (book s) (book s')

  pub Refines-IsPreorder : IsPreorder Refines
  Refines-IsPreorder = record {
    at_once = λ s. done (λ j. refl);
    then_on = λ s t u r r'. Reach-trans r r';
  }

  pub same_rows : (s s' : S) → ((j : ℕ) → orders.row s' j ≡ orders.row s j) → Refines s s'
  same_rows s s' same = done (λ j. ap (Option.map (λ (o : Order). o.columns)) (same j))

  set_row :
      (s s' : S) (id : ℕ) (o : Order)
      → ((j : ℕ) → orders.row s' j ≡ (if j == id then some o else orders.row s j))
      → Sets (book s) id o.columns (book s')
  set_row s s' id o w j = let wj = w j in ground arith

  pub insert-Refines :
      (d : OrderColumns) (s : S) → d.status ≡ confirmed → Refines s (orders.insert d s).1
  insert-Refines d s new = elim (Bool-cases (orders.is_up s)) [
    | inr down ↦ same_rows s _ (orders.insert_down d s down).unchanged.0
    | inl up ↦ elim (orders.insert_up d s up) [
      | inr refused ↦ same_rows s _ refused.unchanged.0
      | inl stored ↦
          let (user, movie, status, quantity) =
            accept_order-parts arithmetic d stored.new.columns stored.accepted in
          next
            (place stored.new.id stored.new.columns
              (ap (Option.map (λ (o : Order). o.columns)) stored.fresh) (status ∙ new) quantity
              (set_row s _ stored.new.id stored.new stored.writes.0))
            (done (λ j. refl))
    ]
  ]

  -- Saving an order as cancelled that a lookup found at an earlier time.
  pub save-Refines :
      (id created : ℕ) (c : OrderColumns) (s : S) (old : Order)
      → orders.row s id ≡ some old
      → Evolves c old.columns
      → Refines s (orders.save id created (record c { status = cancelled }) s).1
  save-Refines id created c s old now h = elim (Bool-cases (orders.is_up s)) [
    | inr down ↦
        same_rows s _
          (orders.save_down id created (record c { status = cancelled }) s down).unchanged.0
    | inl up ↦ elim (orders.save_up id created (record c { status = cancelled }) s old up now) [
      | inr refused ↦ same_rows s _ refused.unchanged.0
      | inl updated ↦
          let (user, movie, status, quantity) =
            accept_order-parts arithmetic (record c { status = cancelled }) updated.new.columns
              updated.accepted in
          let kept : keep_snapshot old.columns updated.new.columns
              ≡ record (old.columns) { status = cancelled } =
            kept_columns old.columns updated.new.columns (user ∙ sym h.user_id)
              (movie ∙ sym h.movie_id) status in
          let s' = (orders.save id created (record c { status = cancelled }) s).1 in
          cancelled_refines s' (
            subst (λ x. Sets (book s) id x (book s')) kept
              (set_row s s' id
                (record (updated.new) { columns = keep_snapshot old.columns updated.new.columns })
                updated.writes.0))
    ]
  ]
    where
      kept_columns :
          (a b : OrderColumns)
          → b.user_id ≡ a.user_id
          → b.movie_id ≡ a.movie_id
          → b.status ≡ cancelled
          → keep_snapshot a b ≡ record a { status = cancelled }
      kept_columns a b user movie status = cc

      cancelled_refines :
          (s' : S)
          → Sets (book s) id (record (old.columns) { status = cancelled }) (book s')
          → Refines s s'
      cancelled_refines s' w = elim (status_cases old.columns.status) [
        | inl active ↦
            next (cancel id old.columns (ap (Option.map (λ (o : Order). o.columns)) now) active w)
              (done (λ j. refl))
        | inr closed ↦ done (λ j. elim (Bool-cases (j == id)) [
          | inl same ↦
              let again = cancel_again old.columns closed in
              let here : orders.row s j ≡ some old =
                subst (λ k. orders.row s k ≡ some old) (sym ((==_iff j id).0 same)) now in
              let wj = w j in ground arith
          | inr other ↦ let wj = w j in ground arith
        ])
      ]

  -- What the lookup found is a row of the table at that time.
  pub found_row :
      (p : Order → Bool) (s : S) (o : Order)
      → orders.find_one_by p s ≡ fulfilled (some o)
      → orders.row s o.id ≡ some o
  found_row p s o e = elim (Bool-cases (orders.is_up s)) [
    | inl up ↦
        let (found, answer, finds) = orders.find_one_by_up p s up in
        let same : found ≡ some o = cc in
        (subst (λ x. Finds (orders_table arithmetic) orders.row orders.is_up p s x) same finds).0
    | inr down ↦ let (fault, answer, _) = orders.find_one_by_down p s down in cc
  ]

  -- An order that is there at one time is still there later, and has only evolved.
  pub found_later :
      (s t : S) (j : ℕ) (o : Order)
      → orders.row s j ≡ some o
      → Refines s t
      → (o' : Order) × (orders.row t j ≡ some o') × Evolves o.columns o'.columns
  found_later s t j o found r =
      let (c, now, h) =
        Reach-Evolves j o.columns r (ap (Option.map (λ (x : Order). x.columns)) found) in
      elim (Option-cases (orders.row t j)) [
        | inl gone ↦ (o, cc, Evolves-refl o.columns)
        | inr (o', here) ↦
            let same : c ≡ o'.columns = cc in (o', here, subst (λ x. Evolves o.columns x) same h)
      ]
