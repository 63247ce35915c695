-- ===== src/Shared/RpcClient.antt =====
-- libs/shared/src/rpc/rpc-client.ts: a call of another service, with every failure turned into an
-- HTTP exception.
pub mod Forwarding
pub mod Outcomes
use cinema_microservices.Prelude.{
  ℕ, String, Bool, false, Option, none, some, List, [], ◌∷◌, includes, if◌then◌else◌, code,
}
use cinema_microservices.Runtime.Value.{
  Value, Number, natural, number, string, object, property, template,
}
use cinema_microservices.Runtime.Exceptions.{
  HttpException, Nest, Thrown, http_exception, timeout_error, other_error, plain,
}
use cinema_microservices.Runtime.Async.{Async, throw, catch, call, Settled}
use cinema_microservices.Shared.Services.{Services, service_name}
use cinema_microservices.Shared.RpcError.{is_rpc_error_payload, rpc_error_payload}

abbrev pub connection_error_codes : List String
connection_error_codes = "ECONNREFUSED" ∷ "ECONNRESET" ∷ "EHOSTUNREACH" ∷ "ENOTFOUND" ∷ "EPIPE" ∷ []

-- `firstValueFrom(proxy.send(pattern, payload).pipe(timeout(ms)))`: the TCP client of NestJS and
-- rxjs, which are third-party code. `S` is the state of whatever the call reaches.
abbrev pub Proxy : Type 0 → Type 0 → Type 0 → Type 0
Proxy S P R = (timeout_ms : ℕ) (pattern : String) (payload : P) → S → Settled R × S

pub record RpcClient (S P R : Type 0) : Type 0 where
  pub proxy : Proxy S P R
  pub service : Services
  pub timeout_ms : ℕ

-- `(error as { code?: string } | null)?.code`, where it is a text.
abbrev text_of : Value → Option String
text_of (string s) = some s
text_of v = none

abbrev pub code_of : Thrown → Option String
code_of (other_error code) = code
code_of (plain (object fs)) = text_of (property "code" fs)
code_of e = none

-- A payload's `statusCode`, which `is_rpc_error_payload` has seen to be a number.
abbrev pub status_code : Value → Number
status_code (number n) = n
status_code v = natural 0

abbrev pub has_connection_code : Option String → Bool
has_connection_code none = false
has_connection_code (some code) = includes connection_error_codes code

module _ (nest : Nest) where
  -- The last two tests of `toHttpException`: a connection error or anything else.
  unreachable_or_unexpected : Services → Option String → HttpException
  unreachable_or_unexpected service code =
      if has_connection_code code
      then nest.service_unavailable (template (service_name service ∷ " is unavailable" ∷ []))
      else nest.bad_gateway (template ("Unexpected response from " ∷ service_name service ∷ []))

  of_payload : Services → Value → HttpException
  unfolding unreachable_or_unexpected is_rpc_error_payload
  of_payload service (object fs) =
      if is_rpc_error_payload (object fs)
      then nest.new_http_exception
          (rpc_error_payload (status_code (property "statusCode" fs)) (property "message" fs)
            (property "error" fs))
          (status_code (property "statusCode" fs))
      else unreachable_or_unexpected service (code_of (plain (object fs)))
  of_payload service v = unreachable_or_unexpected service (code_of (plain v))

  unfoldable pub to_http_exception : Services → Thrown → HttpException
  unfolding of_payload unreachable_or_unexpected
  to_http_exception service (plain v) = of_payload service v
  to_http_exception service timeout_error =
      nest.gateway_timeout (template (service_name service ∷ " did not respond in time" ∷ []))
  to_http_exception service e = unreachable_or_unexpected service (code_of e)

  unfoldable pub send : {S P R : Type 0} → RpcClient S P R → String → P → Async S R
  send client pattern payload =
      catch (call (client.proxy client.timeout_ms pattern payload))
        (λ e. throw (http_exception (to_http_exception client.service e)))
