-- ===== src/Shared/RpcClient/Outcomes.antt =====
-- How a call through `RpcClient.send` ends (libs/shared/src/rpc/rpc-client.ts), for every way in
-- which the transport can end.
use cinema_microservices.Prelude.{
  ◌≡◌, true, false, String, some, Option-cases, includes, inl, inr, Bool-cases, refl, arith,
}
use cinema_microservices.Runtime.Async.{Settled, fulfilled, rejected, run, catch, settle, throw}
use cinema_microservices.Runtime.Exceptions.{
  Nest, Thrown, plain, timeout_error, HttpException, http_exception,
}
use cinema_microservices.Runtime.Value.{Number, Fields, object, property, number, natural, Value}
use cinema_microservices.Shared.RpcError.{is_rpc_error_payload}
use cinema_microservices.Shared.RpcClient.{
  code_of, unreachable_or_unexpected, connection_error_codes, has_connection_code, send,
  to_http_exception, RpcClient,
}
use cinema_microservices.Shared.Services.{Services}

-- No payload of a service and no timeout.
abbrev pub IsTransport : Thrown → Type 0
IsTransport timeout_error = ⊥
IsTransport (plain v) = is_rpc_error_payload v ≡ false
IsTransport e = Unit

-- The HTTP status that the documentation gives for a failed call.
pub data FailureStatus : Thrown → Number → Type 0 where
  -- The service answered with an error payload: the same status.
  replied :
      (fs : Fields) (n : Number)
      → is_rpc_error_payload (object fs) ≡ true
      → property "statusCode" fs ≡ number n
      → FailureStatus (plain (object fs)) n
  -- No answer within the timeout.
  timed_out : FailureStatus timeout_error (natural 504)
  -- Connection refused, reset or closed, host unknown or unreachable.
  refused :
      (e : Thrown) (code : String)
      → code_of e ≡ some code
      → includes connection_error_codes code ≡ true
      → IsTransport e
      → FailureStatus e (natural 503)
  -- Anything else.
  unexpected :
      (e : Thrown)
      → has_connection_code (code_of e) ≡ false
      → IsTransport e
      → FailureStatus e (natural 502)

-- What `send` makes of the transport's outcome.
abbrev pub Outcome : {R : Type 0} → Settled R → Settled R → Type 0
Outcome (fulfilled r) out = out ≡ fulfilled r
Outcome (rejected e) out =
    (h : HttpException) × (out ≡ rejected (http_exception h)) × FailureStatus e h.status

module _ (nest : Nest) where
  unreachable_or_unexpected_status :
      (service : Services) (e : Thrown)
      → IsTransport e
      → FailureStatus e (unreachable_or_unexpected nest service (code_of e)).status
  unfolding unreachable_or_unexpected
  unreachable_or_unexpected_status service e t = elim (Option-cases (code_of e)) [
    | inl missing ↦ rw (missing, nest.bad_gateway_status) (unexpected e (rw missing) t)
    | inr (code, present) ↦ elim (Bool-cases (includes connection_error_codes code)) [
      | inl listed ↦
          rw (present, listed, nest.service_unavailable_status) (refused e code present listed t)
      | inr other ↦
          rw (present, other, nest.bad_gateway_status) (unexpected e (rw (present, other)) t)
    ]
  ]

  number_status :
      (service : Services) (fs : Fields) (v : Value)
      → property "statusCode" fs ≡ v
      → is_rpc_error_payload (object fs) ≡ true
      → FailureStatus
          (plain (object fs))
          (to_http_exception nest service (plain (object fs))).status
  unfolding to_http_exception
  number_status service fs (number n) h p =
      rw (p, nest.new_http_exception_status, h) (replied fs n p h)
  number_status service fs v h p = ground arith

  pub to_http_exception-FailureStatus :
      (service : Services) (e : Thrown) → FailureStatus e (to_http_exception nest service e).status
  unfolding to_http_exception
  to_http_exception-FailureStatus service (plain (object fs)) =
      elim (Bool-cases (is_rpc_error_payload (object fs))) [
        | inl payload ↦ number_status service fs (property "statusCode" fs) refl payload
        | inr other ↦ rw other (unreachable_or_unexpected_status service (plain (object fs)) other)
      ]
  to_http_exception-FailureStatus service (plain v) =
      unreachable_or_unexpected_status service (plain v) refl
  to_http_exception-FailureStatus service timeout_error = rw nest.gateway_timeout_status timed_out
  to_http_exception-FailureStatus service e = unreachable_or_unexpected_status service e tt

  settled-Outcome :
      {S R : Type 0} (service : Services) (r : Settled R) (s : S)
      → let out =
          run
            (catch (settle r) (λ e. throw (http_exception (to_http_exception nest service e))))
            s in
        Outcome r out.0 × (out.1 ≡ s)
  settled-Outcome service (fulfilled r) s = (refl, refl)
  settled-Outcome service (rejected e) s =
      ((to_http_exception nest service e, refl, to_http_exception-FailureStatus service e), refl)

  -- One request is sent; its answer is passed on, and every failure of it is thrown as an HTTP
  -- exception whose status is the documented one for that failure.
  pub send-Outcome :
      {S P R : Type 0} (client : RpcClient S P R) (pattern : String) (payload : P) (s : S)
      → let (r, s') = client.proxy client.timeout_ms pattern payload s in
        let (out, after) = run (send nest client pattern payload) s in Outcome r out × (after ≡ s')
  unfolding send
  send-Outcome client pattern payload s =
      let (r, s') = client.proxy client.timeout_ms pattern payload s in
      settled-Outcome client.service r s'
