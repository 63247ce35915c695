-- ===== src/Orders/OrderBook.antt =====
-- What the order service promises of the table `orders` (apps/order-service/src), without the
-- handlers, queries and columns that keep the promise: a book of orders in which an order is placed
-- once and cancelled at most once.
pub mod Writes
pub mod Refinement
use cinema_microservices.Prelude.{
  if◌then◌else◌, refl, ◌==◌, ◌∙◌, ◌≡◌, ◌≤◌, subst, ℕ, Option, fun_ext, none, some, Bool-cases, inl,
  ==_iff, inr, arith,
}
use cinema_microservices.Orders.Order.{OrderColumns}
use cinema_microservices.Shared.Dtos.Orders.{cancelled, confirmed}

-- The orders by id.
abbrev pub Book : Type 0
Book = ℕ → Option OrderColumns

abbrev pub Sets : Book → ℕ → OrderColumns → Book → Type 0
Sets b id c b' = (j : ℕ) → b' j ≡ (if j == id then some c else b j)

pub data Step (b b' : Book) : Type 0 where
  -- A confirmed order for at least one ticket, under a new id.
  place :
      (id : ℕ) (c : OrderColumns)
      → b id ≡ none
      → c.status ≡ confirmed
      → 1 ≤ c.quantity
      → Sets b id c b'
      → Step b b'
  -- A confirmed order is cancelled, and nothing else of it changes.
  cancel :
      (id : ℕ) (c : OrderColumns)
      → b id ≡ some c
      → c.status ≡ confirmed
      → Sets b id (record c { status = cancelled }) b'
      → Step b b'

-- Any number of steps, one after the other.
pub data Reach : Book → Book → Type 0 where
  done : {b b' : Book} → ((j : ℕ) → b' j ≡ b j) → Reach b b'
  next : {b m b' : Book} → Step b m → Reach m b' → Reach b b'

pub Reach-trans : {a b c : Book} → Reach a b → Reach b c → Reach a c
Reach-trans {a} {b} {c} (done same) r = subst (λ x. Reach x c) (fun_ext same) r
Reach-trans (next s r) r' = next s (Reach-trans r r')

-- How an order may change over time.
pub record Evolves (a b : OrderColumns) : Type 0 where
  pub user_id : b.user_id ≡ a.user_id
  pub movie_id : b.movie_id ≡ a.movie_id
  pub movie_title : b.movie_title ≡ a.movie_title
  pub movie_release_year : b.movie_release_year ≡ a.movie_release_year
  pub ticket_price : b.ticket_price ≡ a.ticket_price
  pub quantity : b.quantity ≡ a.quantity
  pub total_price : b.total_price ≡ a.total_price
  pub status : a.status ≡ cancelled → b.status ≡ cancelled

pub Evolves-refl : (a : OrderColumns) → Evolves a a
Evolves-refl a = record {
  user_id = refl;
  movie_id = refl;
  movie_title = refl;
  movie_release_year = refl;
  ticket_price = refl;
  quantity = refl;
  total_price = refl;
  status = λ h. h;
}

Evolves-trans : (a b c : OrderColumns) → Evolves a b → Evolves b c → Evolves a c
Evolves-trans a b c h h' = record {
  user_id = h'.user_id ∙ h.user_id;
  movie_id = h'.movie_id ∙ h.movie_id;
  movie_title = h'.movie_title ∙ h.movie_title;
  movie_release_year = h'.movie_release_year ∙ h.movie_release_year;
  ticket_price = h'.ticket_price ∙ h.ticket_price;
  quantity = h'.quantity ∙ h.quantity;
  total_price = h'.total_price ∙ h.total_price;
  status = λ e. h'.status (h.status e);
}

cancelled-Evolves : (a : OrderColumns) → Evolves a (record a { status = cancelled })
cancelled-Evolves a = record {
  user_id = refl;
  movie_id = refl;
  movie_title = refl;
  movie_release_year = refl;
  ticket_price = refl;
  quantity = refl;
  total_price = refl;
  status = λ h. refl;
}

Step-Evolves :
    {b b' : Book} (j : ℕ) (a : OrderColumns)
    → Step b b'
    → b j ≡ some a
    → (a' : OrderColumns) × (b' j ≡ some a') × Evolves a a'
Step-Evolves {b} {b'} j a (place id c fresh status quantity w) there = elim (Bool-cases (j == id)) [
  | inl same ↦
      let taken : b id ≡ some a = subst (λ k. b k ≡ some a) ((==_iff j id).0 same) there in
      (a, cc, Evolves-refl a)
  | inr other ↦ let wj = w j in (a, ground arith, Evolves-refl a)
]
Step-Evolves {b} {b'} j a (cancel id c now status w) there = elim (Bool-cases (j == id)) [
  | inl same ↦
      let at_id : b id ≡ some a = subst (λ k. b k ≡ some a) ((==_iff j id).0 same) there in
      let it : c ≡ a = cc in
      let wj = w j in
      (
        record c { status = cancelled },
        ground arith,
        subst (λ x. Evolves x (record c { status = cancelled })) it (cancelled-Evolves c),
      )
  | inr other ↦ let wj = w j in (a, ground arith, Evolves-refl a)
]

-- An order that is in the book stays in it.
pub Reach-Evolves :
    {b b' : Book} (j : ℕ) (a : OrderColumns)
    → Reach b b'
    → b j ≡ some a
    → (a' : OrderColumns) × (b' j ≡ some a') × Evolves a a'
Reach-Evolves j a (done same) there = (a, same j ∙ there, Evolves-refl a)
Reach-Evolves j a (next s r) there =
    let (m, at_m, h) = Step-Evolves j a s there in
    let (a', now, h') = Reach-Evolves j m r at_m in (a', now, Evolves-trans a m a' h h')
