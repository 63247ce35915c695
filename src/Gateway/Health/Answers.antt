-- ===== src/Gateway/Health/Answers.antt =====
-- What the health check of the gateway answers.
use cinema_microservices.Runtime.Async.{
  ◌>>=◌, Settled, fulfilled, rejected, catch, run, settle, throw, return,
}
use cinema_microservices.Shared.Health.{serve, DataSource, HealthStatus, serve_up, serve_down}
use cinema_microservices.Gateway.Health.{
  check, ServiceState, answer, ping, health_of, up, down, ok, health_body, error, GatewayHealth,
}
use cinema_microservices.Prelude.{
  [], if◌then◌else◌, refl, ◌&&◌, ◌∙◌, ◌∷◌, ◌≡◌, Bool, true, List, false, ℕ, ap, map, Bool-cases,
  inl, inr,
}
use cinema_microservices.Runtime.Exceptions.{Nest, http_exception}
use cinema_microservices.Shared.RpcClient.{RpcClient, send, to_http_exception}
use cinema_microservices.Runtime.Value.{Fields, end}
use cinema_microservices.Shared.Services.{common_pattern, health, Services}
use cinema_microservices.Runtime.Async.PromiseAll.{SettlesAt, run-promise_all, promise_all}
use cinema_microservices.Runtime.Async.Interleaving.{run-bind_fulfilled}

abbrev pub is_fulfilled : {A : Type 0} → Settled A → Bool
is_fulfilled (fulfilled a) = true
is_fulfilled (rejected e) = false

abbrev pub state_of : Bool → ServiceState
state_of true = up
state_of false = down

-- Whether the service answers the ping in the state `s`, which the ping leaves as it is.
pub record Pings {S R : Type 0} (client : RpcClient S Fields R) (s : S) (b : Bool) : Type 0 where
  pub result : is_fulfilled (client.proxy client.timeout_ms (common_pattern health) end s).0 ≡ b
  pub unchanged : (client.proxy client.timeout_ms (common_pattern health) end s).1 ≡ s

-- The answer to the client, from whether each service is up.
abbrev pub report : Nest → (auth catalog order : Bool) → Settled GatewayHealth
report nest a c o =
    if a && c && o
    then fulfilled
        (record { status = ok; services = record { auth = up; catalog = up; order = up } })
    else rejected (
        http_exception (
          nest.service_unavailable_with (
            health_body (record {
              status = error;
              services = record { auth = state_of a; catalog = state_of c; order = state_of o };
            }))))

module _ (nest : Nest) {S R : Type 0} where
  ping_lem :
      (client : RpcClient S Fields R) (s : S) (b : Bool)
      → Pings client s b
      → SettlesAt s (ping nest client) (state_of b)
  unfolding ping send
  ping_lem client s b h = (
    h.unchanged,
    settled (client.proxy client.timeout_ms (common_pattern health) end s).0 h.result,
  )
    where
      settled :
          (r : Settled R)
          → is_fulfilled r ≡ b
          → SettlesAt s
              (catch
                (catch
                    (settle r)
                    (λ e. throw (http_exception (to_http_exception nest client.service e)))
                  >>= λ reply. return up)
                (λ e. return down))
              (state_of b)
      settled (fulfilled a) e = ap state_of e
      settled (rejected x) e = ap state_of e

  -- Whatever the order in which the services answer, the health check reports the state of each: it
  -- is a 200 with the status "ok" when all three services answer the ping, and a 503 with the
  -- status "error" and the state of each service otherwise.
  pub check_lem :
      (auth catalog order : RpcClient S Fields R) (schedule : List ℕ) (s : S) (a c o : Bool)
      → Pings auth s a
      → Pings catalog s c
      → Pings order s o
      → run (check nest auth catalog order schedule) s ≡ (report nest a c o, s)
  unfolding check answer health_of
  check_lem auth catalog order schedule s a c o ha hc ho =
      run-bind_fulfilled (promise_all schedule (map (ping nest) (auth ∷ catalog ∷ order ∷ [])))
        (answer nest) s
        (run-promise_all schedule s (map (ping nest) (auth ∷ catalog ∷ order ∷ []))
          (state_of a ∷ state_of c ∷ state_of o ∷ [])
          (ping_lem auth s a ha, (ping_lem catalog s c hc, (ping_lem order s o ho, tt))))
      ∙ answered a c o
    where
      answered :
          (a c o : Bool)
          → run (answer nest (state_of a ∷ state_of c ∷ state_of o ∷ [])) s ≡ (report nest a c o, s)
      answered true true true = refl
      answered true true false = refl
      answered true false true = refl
      answered true false false = refl
      answered false true true = refl
      answered false true false = refl
      answered false false true = refl
      answered false false false = refl

-- A client that reaches the health handler of a service in the same state.
abbrev pub reaches :
    {S : Type 0} (nest : Nest) (service : Services) (timeout_ms : ℕ)
    → DataSource S
    → RpcClient S Fields HealthStatus
reaches nest service timeout_ms data_source = record {
  proxy = λ ms pattern payload s. run (serve nest data_source) s;
  service = service;
  timeout_ms = timeout_ms;
}

module _ (nest : Nest) {S : Type 0} where
  reaches-Pings :
      (service : Services) (timeout_ms : ℕ) (data_source : DataSource S) (s : S)
      → Pings (reaches nest service timeout_ms data_source) s (data_source.is_up s)
  reaches-Pings service timeout_ms data_source s = elim (Bool-cases (data_source.is_up s)) [
    | inl works ↦
        let answered = serve_up nest data_source s works in
        record { result = rw (answered, works) refl; unchanged = rw (answered) refl }
    | inr fails ↦
        let answered = serve_down nest data_source s fails in
        record { result = rw (answered, fails) refl; unchanged = rw (answered) refl }
  ]

  -- When the gateway reaches all three services, its health check is a 200 exactly when all three
  -- databases answer, and otherwise a 503 that names the services whose databases do not.
  pub check-reaches :
      (timeout_ms : ℕ) (users movies orders : DataSource S) (schedule : List ℕ) (s : S)
      → run
          (check nest
            (reaches nest Services.auth timeout_ms users)
            (reaches nest Services.catalog timeout_ms movies)
            (reaches nest Services.order timeout_ms orders)
            schedule)
          s
        ≡ (report nest (users.is_up s) (movies.is_up s) (orders.is_up s), s)
  check-reaches timeout_ms users movies orders schedule s =
      check_lem nest (reaches nest Services.auth timeout_ms users)
        (reaches nest Services.catalog timeout_ms movies)
        (reaches nest Services.order timeout_ms orders) schedule s (users.is_up s) (movies.is_up s)
        (orders.is_up s) (reaches-Pings Services.auth timeout_ms users s)
        (reaches-Pings Services.catalog timeout_ms movies s)
        (reaches-Pings Services.order timeout_ms orders s)
