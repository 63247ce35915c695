-- ===== src/Shared/RpcClient/Forwarding.antt =====
-- An exception on its way from a service to the caller: the service's filter makes it a payload
-- (libs/shared/src/rpc/rpc-error.ts), and the caller's client makes that an HTTP exception again
-- (libs/shared/src/rpc/rpc-client.ts).
use cinema_microservices.Prelude.{
  String, ◌≡◌, refl, inl, inr, none, some, ◌===◌, Bool-cases, code, ℕ,
}
use cinema_microservices.Runtime.Value.{
  Value, Number, natural, string, object, property, nullish_or, undefined, null,
}
use cinema_microservices.Runtime.Exceptions.{
  HttpException, Nest, Thrown, http_exception, rpc_exception, query_failed, timeout_error,
  other_error, plain, built_in,
}
use cinema_microservices.Shared.Services.{Services}
use cinema_microservices.Shared.RpcError.{
  rpc_error_payload, to_rpc_error_payload, internal_server_error, pg_unique_violation,
}
use cinema_microservices.Shared.RpcClient.{to_http_exception}

-- What the caller of a service gets for an exception that the service's handler throws.
abbrev pub forwarded : Nest → Services → Thrown → HttpException
forwarded nest service e = to_http_exception nest service (plain (to_rpc_error_payload e))

abbrev pub IsDefined : Value → Type 0
IsDefined v = (w : Value) → nullish_or v w ≡ v

nullish_or-IsDefined : (v : Value) (s : String) → IsDefined (nullish_or v (string s))
nullish_or-IsDefined undefined s w = refl
nullish_or-IsDefined null s w = refl
nullish_or-IsDefined v s w = refl

-- A complete payload: both texts are there.
record IsPayload (v : Value) : Type 0 where
  status : Number
  message : Value
  reason : Value
  shape : v ≡ rpc_error_payload status message reason
  message_defined : IsDefined message
  reason_defined : IsDefined reason

abbrev NoRpcException : Thrown → Type 0
NoRpcException (rpc_exception v m) = ⊥
NoRpcException e = Unit

internal-IsPayload : IsPayload internal_server_error
internal-IsPayload = record {
  status = natural 500;
  message = string "Internal server error";
  reason = string "Internal Server Error";
  shape = refl;
  message_defined = λ w. refl;
  reason_defined = λ w. refl;
}

response-IsPayload :
    (e : HttpException) (r : Value)
    → e.response ≡ r
    → IsPayload (to_rpc_error_payload (http_exception e))
unfolding to_rpc_error_payload
response-IsPayload e (object fs) h = rw h (record {
  status = e.status;
  message = nullish_or (property "message" fs) (string e.message);
  reason = nullish_or (property "error" fs) (string e.name);
  shape = refl;
  message_defined = nullish_or-IsDefined (property "message" fs) e.message;
  reason_defined = nullish_or-IsDefined (property "error" fs) e.name;
})
response-IsPayload e (string s) h = rw h (record {
  status = e.status;
  message = string s;
  reason = string e.name;
  shape = refl;
  message_defined = λ w. refl;
  reason_defined = λ w. refl;
})
response-IsPayload e v h = rw h (record {
  status = e.status;
  message = string e.message;
  reason = string e.name;
  shape = refl;
  message_defined = λ w. refl;
  reason_defined = λ w. refl;
})

to_rpc_error_payload-IsPayload :
    (e : Thrown) → NoRpcException e → IsPayload (to_rpc_error_payload e)
unfolding to_rpc_error_payload
to_rpc_error_payload-IsPayload (http_exception e) h = response-IsPayload e e.response refl
to_rpc_error_payload-IsPayload (rpc_exception v m) h = absurd h
to_rpc_error_payload-IsPayload (query_failed (some code)) h =
    elim (Bool-cases (code === pg_unique_violation)) [
      | inl unique ↦ rw unique (record {
        status = natural 409;
        message = string "Resource already exists";
        reason = string "Conflict";
        shape = refl;
        message_defined = λ w. refl;
        reason_defined = λ w. refl;
      })
      | inr other ↦ rw other internal-IsPayload
    ]
to_rpc_error_payload-IsPayload (query_failed none) h = internal-IsPayload
to_rpc_error_payload-IsPayload timeout_error h = internal-IsPayload
to_rpc_error_payload-IsPayload (other_error code) h = internal-IsPayload
to_rpc_error_payload-IsPayload (plain v) h = internal-IsPayload

module _ (nest : Nest) where
  -- A complete payload becomes the exception with that status and that response.
  to_http_exception-payload :
      (service : Services) (status : Number) (message reason : Value)
      → to_http_exception nest service (plain (rpc_error_payload status message reason))
        ≡ nest.new_http_exception (rpc_error_payload status message reason) status
  unfolding to_http_exception
  to_http_exception-payload service status message reason = refl

  payload-new_http_exception :
      (status : Number) (message reason : Value)
      → IsDefined message
      → IsDefined reason
      → to_rpc_error_payload (
          http_exception (nest.new_http_exception (rpc_error_payload status message reason) status))
        ≡ rpc_error_payload status message reason
  unfolding to_rpc_error_payload
  payload-new_http_exception status message reason m r = rw (
    nest.new_http_exception_response (rpc_error_payload status message reason) status,
    nest.new_http_exception_status (rpc_error_payload status message reason) status,
    m,
    r,
  )

  forwarded_again_payload :
      (first second : Services) (v : Value)
      → IsPayload v
      → to_http_exception nest second
          (plain (to_rpc_error_payload (http_exception (to_http_exception nest first (plain v)))))
        ≡ to_http_exception nest first (plain v)
  forwarded_again_payload first second v p = rw (
    p.shape,
    to_http_exception-payload first p.status p.message p.reason,
    payload-new_http_exception p.status p.message p.reason p.message_defined p.reason_defined,
    to_http_exception-payload second p.status p.message p.reason,
  )

  -- An exception that crosses two services arrives as it would have after the first one: the caller
  -- of the second service gets the same exception, for everything but an `RpcException`.
  pub forwarded-forwarded :
      (first second : Services) (e : Thrown)
      → NoRpcException e
      → forwarded nest second (http_exception (forwarded nest first e)) ≡ forwarded nest first e
  forwarded-forwarded first second e h =
      forwarded_again_payload first second (to_rpc_error_payload e)
        (to_rpc_error_payload-IsPayload e h)

  -- A payload keeps the status of the exception.
  http_payload_status :
      (e : HttpException) (r : Value)
      → e.response ≡ r
      → (service : Services) → (forwarded nest service (http_exception e)).status ≡ e.status
  unfolding to_rpc_error_payload to_http_exception
  http_payload_status e (object fs) h service = rw h (nest.new_http_exception_status _ _)
  http_payload_status e (string s) h service = rw h (nest.new_http_exception_status _ _)
  http_payload_status e v h service = rw h (nest.new_http_exception_status _ _)

  -- Whatever HTTP exception a service throws, its caller gets one with the same status.
  pub forwarded_status :
      (service : Services) (e : HttpException)
      → (forwarded nest service (http_exception e)).status ≡ e.status
  forwarded_status service e = http_payload_status e e.response refl service

  -- An exception that was made from a text arrives with that text, its status and its error name.
  pub forwarded-built_in :
      (service : Services) (e : HttpException) (message reason : String) (status : ℕ)
      → e.status ≡ natural status
      → e.response ≡ built_in message status reason
      → (forwarded nest service (http_exception e)).response
        ≡ rpc_error_payload (natural status) (string message) (string reason)
  unfolding to_rpc_error_payload to_http_exception
  forwarded-built_in service e message reason status hs hr =
      rw (hr, hs) (nest.new_http_exception_response _ _)
