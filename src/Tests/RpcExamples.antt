-- ===== src/Tests/RpcExamples.antt =====
-- Failures of calls between the services.
use cinema_microservices.Shared.Services.{Services, login, auth_pattern, default_rpc_timeout_ms}
use cinema_microservices.Prelude.{refl, ◌≡◌, ℕ, some}
use cinema_microservices.Runtime.Async.{run, rejected}
use cinema_microservices.Runtime.Exceptions.{HttpException, documented, http_exception, other_error}
use cinema_microservices.Shared.RpcClient.{RpcClient, send}
use cinema_microservices.Shared.RpcClient.Forwarding.{
  forwarded, forwarded-forwarded, forwarded-built_in,
}
use cinema_microservices.Runtime.Value.{natural, string}
use cinema_microservices.Shared.RpcClient.Outcomes.{Outcome, send-Outcome}
use cinema_microservices.Shared.RpcError.{rpc_error_payload}

abbrev missing : HttpException
missing = documented.not_found "Movie 4 not found"

forwarded-forwarded_example :
    forwarded documented Services.order
      (http_exception (forwarded documented Services.catalog (http_exception missing)))
    ≡ forwarded documented Services.catalog (http_exception missing)
forwarded-forwarded_example =
    forwarded-forwarded documented Services.catalog Services.order (http_exception missing) tt

forwarded-built_in_example :
    (forwarded documented Services.catalog (http_exception missing)).response
    ≡ rpc_error_payload (natural 404) (string "Movie 4 not found") (string "Not Found")
forwarded-built_in_example =
    forwarded-built_in documented Services.catalog missing "Movie 4 not found" "Not Found" 404 refl
      refl

-- A service that refuses connections.
abbrev refusing : RpcClient ℕ ℕ ℕ
refusing = record {
  proxy = λ timeout_ms pattern payload s. (rejected (other_error (some "ECONNREFUSED")), s);
  service = Services.auth;
  timeout_ms = default_rpc_timeout_ms;
}

send-Outcome_example :
    let (out, after) = run (send documented refusing (auth_pattern login) 1) 0 in
    Outcome {R = ℕ} (rejected (other_error (some "ECONNREFUSED"))) out × (after ≡ 0)
send-Outcome_example = send-Outcome documented refusing (auth_pattern login) 1 0
