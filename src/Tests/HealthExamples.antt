-- ===== src/Tests/HealthExamples.antt =====
-- The health check of a system whose order database does not answer.
use cinema_microservices.Shared.Services.{Services, default_rpc_timeout_ms}
use cinema_microservices.Gateway.Health.{check}
use cinema_microservices.Prelude.{[], if◌then◌else◌, refl, ◌∷◌, ◌≡◌, Bool, ℕ, none, true, false}
use cinema_microservices.Runtime.Async.{run, fulfilled, rejected}
use cinema_microservices.Shared.Health.{DataSource}
use cinema_microservices.Runtime.Value.{null}
use cinema_microservices.Runtime.Exceptions.{other_error, documented}
use cinema_microservices.Gateway.Health.Answers.{reaches, report, check-reaches}

abbrev database : Bool → DataSource ℕ
database works = record {
  query = λ sql s. if works then fulfilled null else rejected (other_error none);
  is_up = λ s. works;
  query_up = λ s h. (null, rw (h) refl);
  query_down = λ s h. (other_error none, rw (h) refl);
}

check-reaches_example :
    run
      (check documented
        (reaches documented Services.auth default_rpc_timeout_ms (database true))
        (reaches documented Services.catalog default_rpc_timeout_ms (database true))
        (reaches documented Services.order default_rpc_timeout_ms (database false))
        (2 ∷ 0 ∷ 1 ∷ []))
      0
    ≡ (report documented true true false, 0)
check-reaches_example =
    check-reaches documented default_rpc_timeout_ms (database true) (database true) (database false)
      (2 ∷ 0 ∷ 1 ∷ []) 0
