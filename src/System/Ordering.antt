-- ===== src/System/Ordering.antt =====
-- An order on its way from the gateway through the order service to the catalog and back.
use cinema_microservices.System.{connected}
use cinema_microservices.Prelude.{inl, [], ◌∷◌, refl, ◌≤◌, ◌∙◌, ap}
use cinema_microservices.Shared.Services.{Services}
use cinema_microservices.Runtime.Async.{rejected, run, fulfilled, Settled}
use cinema_microservices.Orders.OrdersController
use cinema_microservices.Gateway.Routes.{create_order, Clients, order_call}
use cinema_microservices.Prelude.{◌≡◌, ℕ, true, none, some, inr, subst}
use cinema_microservices.Runtime.Exceptions.{Nest, Thrown, plain, http_exception, HttpException}
use cinema_microservices.Shared.Money.{Arithmetic}
use cinema_microservices.Catalog.Movie.{Movies, Movie}
use cinema_microservices.Orders.Order.{Orders, Order}
use cinema_microservices.System.{catalog_client, order_client, movie_response}
use cinema_microservices.Shared.RpcClient.{send, to_http_exception}
use cinema_microservices.Shared.RpcError.{to_rpc_error_payload, rpc_error_payload}
use cinema_microservices.Runtime.Value.{Value, natural, string, template, show}
use cinema_microservices.Shared.Services.{catalog_pattern, find_one_movie}
use cinema_microservices.Shared.Role.{AuthUser}
use cinema_microservices.Shared.Dtos.Orders.{CreateOrderDto, CreateOrderPayload, IsCreateOrderDto}
use cinema_microservices.Catalog.MoviesService.{movie_not_found}
use cinema_microservices.Shared.RpcClient.Forwarding.{
  forwarded, forwarded-forwarded, forwarded_status, forwarded-built_in,
}
use cinema_microservices.Orders.OrdersService.Purchase.{
  Ordered, IsMovie, run-create_refused, create-Ordered,
}
use cinema_microservices.Shared.Dtos.Movies.{MovieResponse}
use cinema_microservices.System.Replies.{
  catalog_cases, created, replied, replied_error, replied_order,
}

-- The user whose token carries this id.
abbrev pub identified : AuthUser → ℕ → AuthUser
identified user user_id = record user { id = natural user_id }

module _ (nest : Nest) (arithmetic : Arithmetic) {S : Type 0} (movies : Movies arithmetic S)
    (orders : Orders arithmetic S) where
  -- What comes of an order that the gateway has checked: `out` is its answer and the state after it.
  pub data Purchased (json : OrdersController.Reply → Value) (timeout_ms : ℕ) (dto : CreateOrderDto)
      (user_id : ℕ) (s : S) (out : Settled Value × S) : Type 0 where
    -- There is no such movie: nothing has changed.
    no_movie :
        (e : HttpException)
        → movies.row s dto.movie_id ≡ none
        → out ≡ (rejected (http_exception e), s)
        → e.status ≡ natural 404
        → e.response
          ≡ rpc_error_payload
              (natural 404)
              (string (template ("Movie " ∷ show dto.movie_id ∷ " not found" ∷ [])))
              (string "Not Found")
        → Purchased json timeout_ms dto user_id s out
    -- The order is stored, and its JSON is the answer.
    placed :
        (m : Movie) (cents : ℕ) (made : Settled Order × S)
        → movies.row s dto.movie_id ≡ some m
        → (placed : Ordered nest arithmetic orders
            (catalog_client nest arithmetic movies orders timeout_ms)
            (record { dto = dto; user_id = user_id })
            (movie_response m)
            cents
            s
            made)
        → out ≡ (fulfilled (json (OrdersController.order placed.order)), made.1)
        → Purchased json timeout_ms dto user_id s out

  module _ (json : OrdersController.Reply → Value) (refusal : Thrown) (timeout_ms : ℕ)
      (clients : Clients S) (user : AuthUser) (dto : CreateOrderDto) (user_id : ℕ) (s : S) where
    ordered_fulfilled :
        (v : Value) (t : S)
        → replied nest arithmetic movies orders json refusal timeout_ms dto user_id s
          ≡ (fulfilled v, t)
        → run
            (order_call nest
              (connected nest arithmetic movies orders json refusal timeout_ms clients)
              (identified user user_id)
              (create_order dto))
            s
          ≡ (fulfilled v, t)
    unfolding send order_client connected
    ordered_fulfilled v t e = rw (e, run) refl

    ordered_rejected :
        (x : Thrown) (t : S)
        → replied nest arithmetic movies orders json refusal timeout_ms dto user_id s
          ≡ (rejected (plain (to_rpc_error_payload x)), t)
        → run
            (order_call nest
              (connected nest arithmetic movies orders json refusal timeout_ms clients)
              (identified user user_id)
              (create_order dto))
            s
          ≡ (rejected (http_exception (forwarded nest Services.order x)), t)
    unfolding send order_client connected to_http_exception
    ordered_rejected x t e = rw (e, run) refl

    abbrev payload : CreateOrderPayload
    payload = record { dto = dto; user_id = user_id }

    missing_movie :
        movies.row s dto.movie_id ≡ none
        → (catalog_client nest arithmetic movies orders timeout_ms).proxy timeout_ms
            (catalog_pattern find_one_movie)
            dto.movie_id
            s
          ≡ (rejected (plain (to_rpc_error_payload (movie_not_found nest dto.movie_id))), s)
        → Purchased json timeout_ms dto user_id s (
            run
              (order_call nest
                (connected nest arithmetic movies orders json refusal timeout_ms clients)
                (identified user user_id)
                (create_order dto))
              s)
    unfolding movie_not_found catalog_client
    missing_movie gone answer =
        let x = nest.not_found (template ("Movie " ∷ show dto.movie_id ∷ " not found" ∷ [])) in
        let status = nest.not_found_status _ in
        let passed =
          run-create_refused nest arithmetic orders
            (catalog_client nest arithmetic movies orders timeout_ms) payload s
            (plain (to_rpc_error_payload (http_exception x)))
            (ap (λ (r : Settled MovieResponse × S). r.0) answer)
          ∙ ap
              (λ t.
                (rejected (http_exception (forwarded nest Services.catalog (http_exception x))), t))
              (ap (λ (r : Settled MovieResponse × S). r.1) answer) in
        let replied =
          replied_error nest arithmetic movies orders json refusal timeout_ms dto user_id s
            (http_exception (forwarded nest Services.catalog (http_exception x))) s passed in
        no_movie (forwarded nest Services.catalog (http_exception x)) gone
          (ordered_rejected (http_exception (forwarded nest Services.catalog (http_exception x))) s
              replied
            ∙ ap (λ e. (rejected (http_exception e), s))
                (forwarded-forwarded nest Services.catalog Services.order (http_exception x) tt))
          (forwarded_status nest Services.catalog x ∙ status)
          (forwarded-built_in nest Services.catalog x _ "Not Found" 404 status
            (nest.not_found_response _))

    stored_order :
        (m : Movie) (cents : ℕ)
        → movies.row s dto.movie_id ≡ some m
        → Ordered nest arithmetic orders
            (catalog_client nest arithmetic movies orders timeout_ms)
            payload
            (movie_response m)
            cents
            s
            (created nest arithmetic movies orders json refusal timeout_ms dto user_id s)
        → Purchased json timeout_ms dto user_id s (
            run
              (order_call nest
                (connected nest arithmetic movies orders json refusal timeout_ms clients)
                (identified user user_id)
                (create_order dto))
              s)
    stored_order m cents there stored =
        let made = created nest arithmetic movies orders json refusal timeout_ms dto user_id s in
        placed m cents made there stored (
          ordered_fulfilled (json (OrdersController.order stored.order)) made.1 (
            replied_order nest arithmetic movies orders json refusal timeout_ms dto user_id s
              stored.order made.1 (ap (λ r. (r, made.1)) stored.result)))

    -- With both databases up and the ids of the user and of the movie in the range of the columns,
    -- an order that the gateway has checked and that names a movie of the catalog, which is within
    -- its bounds, is stored for its user, with the title, the year and the price that the movie has
    -- in the catalog and the exact total, and its JSON is the answer. Where there is no such movie,
    -- the answer is 404 with the text of the catalog service, and nothing has changed.
    pub order_call-Purchased :
        movies.is_up s ≡ true
        → orders.is_up s ≡ true
        → IsCreateOrderDto dto
        → user_id ≤ 2147483647
        → dto.movie_id ≤ 2147483647
        → ((m : Movie)
            → movies.row s dto.movie_id ≡ some m
            → (cents : ℕ) × IsMovie nest arithmetic orders
                (catalog_client nest arithmetic movies orders timeout_ms)
                (movie_response m)
                cents)
        → Purchased json timeout_ms dto user_id s (
            run
              (order_call nest
                (connected nest arithmetic movies orders json refusal timeout_ms clients)
                (identified user user_id)
                (create_order dto))
              s)
    unfolding catalog_client
    order_call-Purchased movies_up orders_up valid id_max movie_max movie_valid =
        elim (catalog_cases nest arithmetic movies orders timeout_ms dto.movie_id s movies_up) [
          | inl (gone, answer) ↦ missing_movie gone answer
          | inr (m, there, answer) ↦
              let (cents, good) = movie_valid m there in
              let same = ap (λ (r : Settled MovieResponse × S). r.1) answer in
              let stored =
                create-Ordered nest arithmetic orders
                  (catalog_client nest arithmetic movies orders timeout_ms) payload
                  (movie_response m) cents s (ap (λ (r : Settled MovieResponse × S). r.0) answer)
                  (ap orders.is_up same ∙ orders_up) good valid id_max in
              stored_order m cents there (
                subst
                  (λ t.
                    Ordered nest arithmetic orders
                      (catalog_client nest arithmetic movies orders timeout_ms) payload
                      (movie_response m) cents t
                      (created nest arithmetic movies orders json refusal timeout_ms dto user_id s))
                  same stored)
        ]
