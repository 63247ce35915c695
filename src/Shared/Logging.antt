-- ===== src/Shared/Logging.antt =====
-- libs/shared/src/interceptors/logging.interceptor.ts and
-- apps/api-gateway/src/common/logger.middleware.ts: the log lines of messages and of requests.
use cinema_microservices.Runtime.Async.{
  Async, Settled, return, run, await, fulfilled, rejected, throw,
}
use cinema_microservices.Prelude.{[], refl, ◌-◌, ◌∷◌, ◌≡◌, String, ℕ}
use cinema_microservices.Runtime.Exceptions.{Thrown, plain}
use cinema_microservices.Runtime.Value.{
  Value, template, nullish_or, show, object, string, property, undefined,
}

-- The clock, the logger and the text of a value in a template literal: third-party code.
pub record Logger (S : Type 0) : Type 0 where
  pub now : S → ℕ
  pub log : String → S → S
  pub warn : String → S → S
  pub text : Value → String

-- `error?.statusCode`: no class of exception has such a property.
abbrev pub status_code_of : Thrown → Value
status_code_of (plain (object fs)) = property "statusCode" fs
status_code_of e = undefined

-- What `tap` does in the turn that brings a handler here: a line when it has ended.
abbrev pub note : {S A : Type 0} → Async S A → (S → S) → (Thrown → S → S) → S → S
note (return a) next error s = next s
note (throw e) next error s = error e s
note (await w k) next error s = s

-- `tap({ next, error })`: the line is written in the turn in which the handler ends.
abbrev pub tap : {S A : Type 0} → Async S A → (S → S) → (Thrown → S → S) → Async S A
tap (return a) next error = return a
tap (throw e) next error = throw e
tap (await w k) next error = await (λ s. note (k s) next error (w s)) (λ s. tap (k s) next error)

module _ {S : Type 0} (logger : Logger S) where
  unfoldable pub ok_line : String → ℕ → S → String
  ok_line pattern start s = template (pattern ∷ " OK +" ∷ show (logger.now s - start) ∷ "ms" ∷ [])

  unfoldable pub failed_line : String → ℕ → Thrown → S → String
  failed_line pattern start error s = template (
      pattern
      ∷ " FAILED ("
      ∷ logger.text (nullish_or (status_code_of error) (string "error"))
      ∷ ") +"
      ∷ show (logger.now s - start)
      ∷ "ms"
      ∷ [])

  -- `LoggingInterceptor.intercept` around a handler. The clock does not run backwards.
  unfoldable pub intercept : {A : Type 0} → String → Async S A → Async S A
  unfolding ok_line failed_line
  intercept pattern handler =
      await
        (λ s.
          note handler (λ t. logger.log (ok_line pattern (logger.now s) t) t)
            (λ error t. logger.warn (failed_line pattern (logger.now s) error t) t) s)
        (λ s.
          tap handler (λ t. logger.log (ok_line pattern (logger.now s) t) t)
            (λ error t. logger.warn (failed_line pattern (logger.now s) error t) t))

  -- `AppLoggerMiddleware.use`, when the response has finished.
  unfoldable pub finish : String → String → ℕ → ℕ → S → S
  finish method original_url status_code start s =
      logger.log
        (template (
          method
          ∷ " "
          ∷ original_url
          ∷ " "
          ∷ show status_code
          ∷ " - "
          ∷ show (logger.now s - start)
          ∷ "ms"
          ∷ []))
        s

  -- The line that a handler's end adds.
  abbrev pub logged : {A : Type 0} → String → ℕ → Settled A × S → S
  logged pattern start (fulfilled a, s) = logger.log (ok_line pattern start s) s
  logged pattern start (rejected e, s) = logger.warn (failed_line pattern start e s) s

  run-tap :
      {A : Type 0} (pattern : String) (start : ℕ) (handler : Async S A) (s : S)
      → run
          (tap handler
            (λ t. logger.log (ok_line pattern start t) t)
            (λ error t. logger.warn (failed_line pattern start error t) t))
          (note handler
            (λ t. logger.log (ok_line pattern start t) t)
            (λ error t. logger.warn (failed_line pattern start error t) t)
            s)
        ≡ ((run handler s).0, logged pattern start (run handler s))
  run-tap pattern start (return a) s = refl
  run-tap pattern start (throw e) s = refl
  run-tap pattern start (await w k) s = run-tap pattern start (k s) (w s)

  -- The interceptor changes no answer, and one line is all that it adds to the state that the
  -- handler leaves behind.
  pub run-intercept :
      {A : Type 0} (pattern : String) (handler : Async S A) (s : S)
      → run (intercept pattern handler) s
        ≡ ((run handler s).0, logged pattern (logger.now s) (run handler s))
  unfolding intercept
  run-intercept pattern handler s = run-tap pattern (logger.now s) handler s
