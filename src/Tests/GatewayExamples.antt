-- ===== src/Tests/GatewayExamples.antt =====
-- Requests to the gateway, in front of services that count the messages they get.
use cinema_microservices.Shared.Role.{Role, AuthUser}
use cinema_microservices.Shared.Services.{Services, default_rpc_timeout_ms}
use Prim.Native.String.{◌++◌}
use cinema_microservices.Gateway.Routes.{
  serve, orders, admins, cancel_order, delete_movie, Clients, Message, admin_call,
}
use cinema_microservices.Prelude.{◌≡◌, ◌⊎◌, some, ℕ, suc, String, arith}
use cinema_microservices.Gateway.Access.{Denied, Verified, serve-admins, serve-orders, Asks}
use cinema_microservices.Gateway.Bearer.{extract_bearer_token, extract_bearer_token-Bearer, NoSpace}
use cinema_microservices.Gateway.JwtAuthGuard.{TokenVerifier}
use cinema_microservices.Runtime.Async.{run, fulfilled}
use cinema_microservices.Shared.RpcClient.{RpcClient, send}
use cinema_microservices.Runtime.Exceptions.{documented}
use cinema_microservices.Runtime.Value.{Value, object, field, null, number, natural, string, end}

abbrev compact : String
compact = "abc.def.ghi"

compact-NoSpace : NoSpace compact
compact-NoSpace = ground arith

compact_given : ¬ (compact ≡ "")
compact_given e = cc

extract_bearer_token-Bearer_example :
    extract_bearer_token (some ("Bearer " ++ compact)) ≡ some compact
extract_bearer_token-Bearer_example =
    extract_bearer_token-Bearer compact compact-NoSpace compact_given

-- Every token is that of one admin.
abbrev pub verifier : TokenVerifier ℕ
verifier = record {
  verify_async = λ token s. fulfilled (
      object (
        field "sub" (number (natural 7))
          (field "email" (string "root@cinema.io") (field "role" (string "ADMIN") end))));
}

abbrev client : Services → RpcClient ℕ Message Value
client service = record {
  proxy = λ timeout_ms pattern message s. (fulfilled null, suc s);
  service = service;
  timeout_ms = default_rpc_timeout_ms;
}

abbrev pub clients : Clients ℕ
clients = record {
  auth = client Services.auth;
  catalog = client Services.catalog;
  order = client Services.order;
}

serve-orders_example :
    Denied documented verifier clients 401 0
      (run (serve documented verifier clients (orders (cancel_order 1)) (some "Bearer abc")) 0)
    ⊎ ((user : AuthUser) × Verified documented verifier clients (some "Bearer abc") 0 user
        × (pattern : String) × (message : Message) × Asks user.id (cancel_order 1) pattern message
        × (run (serve documented verifier clients (orders (cancel_order 1)) (some "Bearer abc")) 0
            ≡ run (send documented clients.order pattern message) 0))
serve-orders_example =
    serve-orders documented verifier clients (cancel_order 1) (some "Bearer abc") 0

serve-admins_example :
    let out =
      run (serve documented verifier clients (admins (delete_movie 4)) (some "Bearer abc")) 0 in
    Denied documented verifier clients 401 0 out
    ⊎ ((user : AuthUser) × Verified documented verifier clients (some "Bearer abc") 0 user
        × (((user.role ≡ Role.user) × Denied documented verifier clients 403 0 out)
            ⊎ ((user.role ≡ Role.admin)
                × (out ≡ run (admin_call documented clients (delete_movie 4)) 0))))
serve-admins_example =
    serve-admins documented verifier clients (delete_movie 4) (some "Bearer abc") 0
