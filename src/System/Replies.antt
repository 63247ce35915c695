-- ===== src/System/Replies.antt =====
-- The answers of the catalog service and of the order service to a purchase, over the connection of
-- System.
use cinema_microservices.Prelude.{Option-cases, inl, arith}
use cinema_microservices.Shared.Services.{order_pattern, OrderPatterns}
use cinema_microservices.Runtime.Async.{
  ◌>>=◌, rejected, run, fulfilled, Async, Settled, catch, return, throw, await,
}
use cinema_microservices.Catalog.MoviesController
use cinema_microservices.Orders.OrdersController
use cinema_microservices.Orders.OrdersService
use cinema_microservices.Catalog.MoviesService
use cinema_microservices.Gateway.Routes.{Message}
use cinema_microservices.Prelude.{
  ◌==◌, ◌≡◌, ◌⊎◌, ℕ, true, none, some, Option, inr, subst, ==_iff, Option-cases,
}
use cinema_microservices.Runtime.Exceptions.{Nest, Thrown, plain}
use cinema_microservices.Shared.Money.{Arithmetic}
use cinema_microservices.Catalog.Movie.{Movies, Movie, movies_table}
use cinema_microservices.Orders.Order.{Orders, Order}
use cinema_microservices.System.{catalog_client, order_client, movie_response}
use cinema_microservices.Shared.RpcError.{with_filter, to_rpc_error_payload}
use cinema_microservices.Runtime.Value.{Value, natural}
use cinema_microservices.Shared.Services.{catalog_pattern, find_one_movie}
use cinema_microservices.Shared.Dtos.Orders.{CreateOrderDto}
use cinema_microservices.Catalog.MoviesService.{movie_not_found}
use cinema_microservices.Runtime.Repository.{Finds}

-- A handler behind the filter, whose reply is made JSON.
module _ {S A B C : Type 0} where
  abbrev served : Async S A → (A → B) → (B → C) → (Thrown → Thrown) → Async S C
  served m f g x = catch (m >>= λ a. return (f a)) (λ e. throw (x e)) >>= (λ b. return (g b))

  run-served_fulfilled :
      (m : Async S A) (f : A → B) (g : B → C) (x : Thrown → Thrown) (s : S) {a : A} {t : S}
      → run m s ≡ (fulfilled a, t)
      → run (served m f g x) s ≡ (fulfilled (g (f a)), t)
  run-served_fulfilled (return a) f g x s e = ground arith
  run-served_fulfilled (throw y) f g x s e = ground arith
  run-served_fulfilled (await w k) f g x s e = run-served_fulfilled (k s) f g x (w s) e

  run-served_rejected :
      (m : Async S A) (f : A → B) (g : B → C) (x : Thrown → Thrown) (s : S) {y : Thrown} {t : S}
      → run m s ≡ (rejected y, t)
      → run (served m f g x) s ≡ (rejected (x y), t)
  run-served_rejected (return a) f g x s e = ground arith
  run-served_rejected (throw y) f g x s e = ground arith
  run-served_rejected (await w k) f g x s e = run-served_rejected (k s) f g x (w s) e

module _ (nest : Nest) (arithmetic : Arithmetic) {S : Type 0} (movies : Movies arithmetic S)
    (orders : Orders arithmetic S) where
  -- The answer of the catalog to the order service.
  pub catalog_cases :
      (timeout_ms id : ℕ) (s : S)
      → movies.is_up s ≡ true
      → let out =
          (catalog_client nest arithmetic movies orders timeout_ms).proxy timeout_ms
            (catalog_pattern find_one_movie)
            id
            s in
        ((movies.row s id ≡ none)
          × (out ≡ (rejected (plain (to_rpc_error_payload (movie_not_found nest id))), s)))
        ⊎ ((m : Movie) × (movies.row s id ≡ some m) × (out ≡ (fulfilled (movie_response m), s)))
  unfolding catalog_client MoviesController.serve MoviesController.handle MoviesService.find_one
      with_filter
  catalog_cases timeout_ms id s up =
      let (found, answer, finds) = movies.find_one_by_up (λ o. o.id == id) s up in
      cases found answer finds
    where
      cases :
          (found : Option Movie)
          → movies.find_one_by (λ o. o.id == id) s ≡ fulfilled found
          → Finds (movies_table arithmetic) movies.row movies.is_up (λ o. o.id == id) s found
          → let out =
              (catalog_client nest arithmetic movies orders timeout_ms).proxy timeout_ms
                (catalog_pattern find_one_movie)
                id
                s in
            ((movies.row s id ≡ none)
              × (out ≡ (rejected (plain (to_rpc_error_payload (movie_not_found nest id))), s)))
            ⊎ ((m : Movie) × (movies.row s id ≡ some m) × (out ≡ (fulfilled (movie_response m), s)))
      cases (some m) answer (there, match) = inr (
        m,
        subst (λ k. movies.row s k ≡ some m) ((==_iff m.id id).0 match) there,
        rw (answer, run),
      )
      cases none answer missing = elim (Option-cases (movies.row s id)) [
        | inl gone ↦ inl (gone, rw (answer, run))
        | inr (m, there) ↦
            let other = missing id m there in
            let same = movies.row_id s id m there in let it = (==_iff m.id id).1 same in cc
      ]

  -- The answer of the order service to the gateway, from how the handler ends.
  module _ (json : OrdersController.Reply → Value) (refusal : Thrown) (timeout_ms : ℕ)
      (dto : CreateOrderDto) (user_id : ℕ) (s : S) where
    abbrev pub created : Settled Order × S
    created =
        run
          (OrdersService.create nest arithmetic orders
            (catalog_client nest arithmetic movies orders timeout_ms)
            (record { dto = dto; user_id = user_id }))
          s

    abbrev pub replied : Settled Value × S
    replied =
        (order_client nest arithmetic movies orders json refusal timeout_ms).proxy timeout_ms
          (order_pattern OrderPatterns.create_order) (Message.order dto (natural user_id)) s

    pub replied_order :
        (o : Order) (t : S)
        → created ≡ (fulfilled o, t)
        → replied ≡ (fulfilled (json (OrdersController.order o)), t)
    unfolding order_client OrdersController.serve OrdersController.handle with_filter
    replied_order o t e =
        run-served_fulfilled
          (OrdersService.create nest arithmetic orders
            (catalog_client nest arithmetic movies orders timeout_ms)
            (record { dto = dto; user_id = user_id }))
          OrdersController.order json (λ x. plain (to_rpc_error_payload x)) s e

    pub replied_error :
        (x : Thrown) (t : S)
        → created ≡ (rejected x, t)
        → replied ≡ (rejected (plain (to_rpc_error_payload x)), t)
    unfolding order_client OrdersController.serve OrdersController.handle with_filter
    replied_error x t e =
        run-served_rejected
          (OrdersService.create nest arithmetic orders
            (catalog_client nest arithmetic movies orders timeout_ms)
            (record { dto = dto; user_id = user_id }))
          OrdersController.order json (λ x. plain (to_rpc_error_payload x)) s e
