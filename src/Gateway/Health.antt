-- ===== src/Gateway/Health.antt =====
-- apps/api-gateway/src/health/health.controller.ts: the health of the whole system.
pub mod Answers
use cinema_microservices.Runtime.Async.{◌>>=◌, Async, catch, throw, return}
use cinema_microservices.Prelude.{
  [], if◌then◌else◌, ◌&&◌, ◌===◌, ◌∷◌, Bool, String, List, true, false, not, ℕ, map, none,
}
use cinema_microservices.Runtime.Exceptions.{Nest, http_exception, other_error}
use cinema_microservices.Runtime.Value.{Value, object, Fields, field, string, end}
use cinema_microservices.Runtime.Async.PromiseAll.{promise_all}
use cinema_microservices.Shared.RpcClient.{RpcClient, send}
use cinema_microservices.Shared.Services.{common_pattern, health}

pub data ServiceState : Type 0 where
  up down : ServiceState

pub data HealthState : Type 0 where
  ok error : HealthState

-- `Record<"auth" | "catalog" | "order", ServiceState>`
pub record ServiceStates : Type 0 where
  pub auth : ServiceState
  pub catalog : ServiceState
  pub order : ServiceState

pub record GatewayHealth : Type 0 where
  pub status : HealthState
  pub services : ServiceStates

abbrev pub state_text : ServiceState → String
state_text up = "up"
state_text down = "down"

abbrev pub status_text : HealthState → String
status_text ok = "ok"
status_text error = "error"

-- The object as a response body.
abbrev pub health_body : GatewayHealth → Value
health_body body = object (
    field "status" (string (status_text body.status)) (
      field "services"
        (object (
          field "auth" (string (state_text body.services.auth)) (
            field "catalog" (string (state_text body.services.catalog))
              (field "order" (string (state_text body.services.order)) end))))
        end))

-- `state === "up"`
abbrev pub is_up_state : ServiceState → Bool
is_up_state up = true
is_up_state down = false

abbrev pub every : {A : Type 0} → (A → Bool) → List A → Bool
every p [] = true
every p (a ∷ rest) = p a && every p rest

unfoldable pub health_of : ServiceState → ServiceState → ServiceState → GatewayHealth
health_of auth catalog order = record {
  status = if every is_up_state (auth ∷ catalog ∷ order ∷ []) then ok else error;
  services = record { auth = auth; catalog = catalog; order = order };
}

module _ (nest : Nest) {S : Type 0} where
  -- The rest of `check`. `Promise.all` answers with as many states as there are clients.
  answer : List ServiceState → Async S GatewayHealth
  unfolding health_of
  answer (auth ∷ catalog ∷ order ∷ []) =
      let body = health_of auth catalog order in
      if not (status_text body.status === "ok")
      then throw (http_exception (nest.service_unavailable_with (health_body body)))
      else return body
  answer states = throw (other_error none)

  module _ {R : Type 0} where
    -- `client.send(CommonPatterns.HEALTH, {})`
    unfoldable pub ping : RpcClient S Fields R → Async S ServiceState
    ping client =
        catch (send nest client (common_pattern health) end >>= λ reply. return up)
          (λ e. return down)

    -- The schedule is the order in which the answers of the services arrive.
    unfoldable pub check :
        (auth catalog order : RpcClient S Fields R) → List ℕ → Async S GatewayHealth
    unfolding ping answer promise_all
    check auth catalog order schedule = do
      states ← promise_all schedule (map ping (auth ∷ catalog ∷ order ∷ []))
      answer states
