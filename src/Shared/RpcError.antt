-- ===== src/Shared/RpcError.antt =====
-- libs/shared/src/rpc/rpc-error.ts and rpc-exceptions.filter.ts: what a microservice sends back
-- for anything that its handler throws.

use cinema_microservices.Prelude.{String, Bool, false, none, some, ◌===◌, ◌&&◌, if◌then◌else◌, code}
use cinema_microservices.Runtime.Value.{
  Value, Number, natural, number, string, object, field, end, property, has_key, nullish_or,
  is_number,
}
use cinema_microservices.Runtime.Exceptions.{
  HttpException, Thrown, http_exception, rpc_exception, query_failed, timeout_error, other_error,
  plain,
}
use cinema_microservices.Runtime.Async.{Async, throw, catch}

-- The object `{ statusCode, message, error }`.
abbrev pub rpc_error_payload : Number → Value → Value → Value
rpc_error_payload status_code message error =
    object
      (field "statusCode" (number status_code) (field "message" message (field "error" error end)))

abbrev pub pg_unique_violation : String
pg_unique_violation = "23505"

unfoldable pub is_rpc_error_payload : Value → Bool
is_rpc_error_payload (object fs) = is_number (property "statusCode" fs) && has_key "message" fs
is_rpc_error_payload v = false

abbrev pub internal_server_error : Value
internal_server_error =
    rpc_error_payload (natural 500) (string "Internal server error")
      (string "Internal Server Error")

-- The branch of `HttpException`: its response is a text or an object.
http_payload : HttpException → Value → Value
http_payload exception (string response) =
    rpc_error_payload exception.status (string response) (string exception.name)
http_payload exception (object body) =
    rpc_error_payload exception.status
      (nullish_or (property "message" body) (string exception.message))
      (nullish_or (property "error" body) (string exception.name))
http_payload exception response =
    rpc_error_payload exception.status (string exception.message) (string exception.name)

-- The branch of `RpcException`, where the error is no payload itself.
rpc_message : Value → String → Value
rpc_message (string error) message = string error
rpc_message error message = string message

unfoldable pub to_rpc_error_payload : Thrown → Value
unfolding http_payload rpc_message is_rpc_error_payload
to_rpc_error_payload (http_exception exception) = http_payload exception exception.response
to_rpc_error_payload (rpc_exception error message) =
    if is_rpc_error_payload error
    then error
    else rpc_error_payload (natural 500) (rpc_message error message)
        (string "Internal Server Error")
to_rpc_error_payload (query_failed (some code)) =
    if code === pg_unique_violation
    then rpc_error_payload (natural 409) (string "Resource already exists") (string "Conflict")
    else internal_server_error
to_rpc_error_payload (query_failed none) = internal_server_error
to_rpc_error_payload timeout_error = internal_server_error
to_rpc_error_payload (other_error code) = internal_server_error
to_rpc_error_payload (plain v) = internal_server_error

-- `RpcExceptionsFilter.catch`, without its log line: whatever a handler throws is rethrown as the
-- payload.
unfoldable pub with_filter : {S A : Type 0} → Async S A → Async S A
with_filter handler = catch handler (λ exception. throw (plain (to_rpc_error_payload exception)))
