-- ===== src/Shared/Microservice.antt =====
-- libs/shared/src/rpc/bootstrap-microservice.ts: what `configureMicroservice` puts around every
-- handler of a microservice.
use cinema_microservices.Runtime.Async.{
  ◌>>=◌, Async, fulfilled, settle, or_throw, run, catch, throw, return, await,
}
use cinema_microservices.Prelude.{◌≡◌, String, Option, some, refl}
use cinema_microservices.Shared.Logging.{Logger, intercept, ok_line, failed_line, tap, note}
use cinema_microservices.Runtime.Validation.{ClassValidator, ValidationPipe, Schema}
use cinema_microservices.Shared.RpcError.{with_filter, to_rpc_error_payload}
use cinema_microservices.Runtime.Value.{Fields, undefined}
use cinema_microservices.Runtime.Exceptions.{plain, Thrown}

-- A line in the log changes no answer.
run-catch-tap :
    {S A : Type 0} (m : Async S A) (next : S → S) (error : Thrown → S → S) (x : Thrown → Thrown)
    (s : S)
    → (run (catch (tap m next error) (λ e. throw (x e))) (note m next error s)).0
      ≡ (run (catch m (λ e. throw (x e))) s).0
run-catch-tap (return a) next error x s = refl
run-catch-tap (throw e) next error x s = refl
run-catch-tap (await w k) next error x s = run-catch-tap (k s) next error x (w s)

module _ {S : Type 0} (logger : Logger S) {validator : ClassValidator}
    (pipe : ValidationPipe validator) where
  -- A message on its way to its handler: NestJS runs the interceptor, in it the pipe and then the
  -- handler, and the filter around all of them. `read_payload` is the class of the payload.
  unfoldable pub configure_microservice :
      {P A : Type 0} → String → Schema → (Fields → Option P) → (P → Async S A) → Fields → Async S A
  unfolding with_filter intercept
  configure_microservice pattern schema read_payload handler message = with_filter (
      intercept logger pattern (
        settle (pipe.transform schema message)
        >>= (λ fields. or_throw (read_payload fields) (plain undefined) >>= handler)))

  -- A message that conforms is answered as the handler behind the filter answers it.
  pub configure_microservice-Conforms :
      {P A : Type 0} (pattern : String) (schema : Schema) (read_payload : Fields → Option P)
      (handler : P → Async S A) (message fields : Fields) (payload : P) (s : S)
      → pipe.transform schema message ≡ fulfilled fields
      → read_payload fields ≡ some payload
      → (run (configure_microservice pattern schema read_payload handler message) s).0
        ≡ (run (with_filter (handler payload)) s).0
  unfolding configure_microservice intercept with_filter
  configure_microservice-Conforms pattern schema read_payload handler message fields payload s
        passed read =
      rw (passed, read)
        (run-catch-tap (handler payload)
          (λ t. logger.log (ok_line logger pattern (logger.now s) t) t)
          (λ error t. logger.warn (failed_line logger pattern (logger.now s) error t) t)
          (λ e. plain (to_rpc_error_payload e)) s)
