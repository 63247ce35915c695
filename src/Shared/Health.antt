-- ===== src/Shared/Health.antt =====
-- libs/shared/src/rpc/health.controller.ts: a microservice answers health checks after it has pinged
-- its database.
use cinema_microservices.Prelude.{◌≡◌, String, Bool, true, false}
use cinema_microservices.Runtime.Exceptions.{Nest, Thrown, http_exception, plain}
use cinema_microservices.Runtime.Async.{
  Async, Settled, ◌>>◌, catch, read, fulfilled, rejected, return, throw, run, settle,
}
use cinema_microservices.Shared.RpcError.{with_filter, to_rpc_error_payload}
use cinema_microservices.Runtime.Value.{Value}
use cinema_microservices.Runtime.Async.{◌>>=◌, ◌>>◌}

-- The `DataSource` of TypeORM, third-party code: a query that writes nothing, and whether the
-- connection works.
pub record DataSource (S : Type 0) : Type 0 where
  pub query : String → S → Settled Value
  pub is_up : S → Bool
  pub query_up : (s : S) → is_up s ≡ true → (rows : Value) × (query "SELECT 1" s ≡ fulfilled rows)
  pub query_down : (s : S) → is_up s ≡ false → (e : Thrown) × (query "SELECT 1" s ≡ rejected e)

-- The object `{ status: "ok", database: "up" }`.
pub record HealthStatus : Type 0 where
  pub status : String
  pub database : String

module _ (nest : Nest) {S : Type 0} (data_source : DataSource S) where
  unfoldable pub check : Async S HealthStatus
  check = do
    catch (read (data_source.query "SELECT 1") >>= λ rows. return tt)
        (λ e. throw (http_exception (nest.service_unavailable "Database is unreachable")))
    return (record { status = "ok"; database = "up" })

  -- The handler behind the exception filter.
  unfoldable pub serve : Async S HealthStatus
  unfolding check with_filter
  serve = with_filter check

  pub serve_up :
      (s : S)
      → data_source.is_up s ≡ true
      → run serve s ≡ (fulfilled (record { status = "ok"; database = "up" }), s)
  unfolding serve check with_filter
  serve_up s works =
      let (rows, answered) = data_source.query_up s works in rw (answered, run, settle, catch)

  pub serve_down :
      (s : S)
      → data_source.is_up s ≡ false
      → run serve s ≡ (
        rejected (
            plain (
              to_rpc_error_payload
                (http_exception (nest.service_unavailable "Database is unreachable")))),
        s,
      )
  unfolding serve check with_filter
  serve_down s down =
      let (e, failed) = data_source.query_down s down in rw (failed, run, settle, catch)
