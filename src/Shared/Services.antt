-- ===== src/Shared/Services.antt =====
-- libs/shared/src/constants/services.ts: service names, endpoints and message patterns.
use cinema_microservices.Prelude.{ℕ, String}

pub data Services : Type 0 where
  auth catalog order : Services

abbrev pub service_name : Services → String
service_name auth = "AUTH_SERVICE"
service_name catalog = "CATALOG_SERVICE"
service_name order = "ORDER_SERVICE"

pub record Endpoint : Type 0 where
  pub host : String
  pub listen_host : String
  pub port : String

abbrev pub service_endpoints : Services → Endpoint
service_endpoints auth = record {
  host = "AUTH_SERVICE_HOST";
  listen_host = "AUTH_SERVICE_LISTEN_HOST";
  port = "AUTH_SERVICE_PORT";
}
service_endpoints catalog = record {
  host = "CATALOG_SERVICE_HOST";
  listen_host = "CATALOG_SERVICE_LISTEN_HOST";
  port = "CATALOG_SERVICE_PORT";
}
service_endpoints order = record {
  host = "ORDER_SERVICE_HOST";
  listen_host = "ORDER_SERVICE_LISTEN_HOST";
  port = "ORDER_SERVICE_PORT";
}

abbrev pub default_rpc_timeout_ms : ℕ
default_rpc_timeout_ms = 5000

pub data CommonPatterns : Type 0 where
  health : CommonPatterns

pub data AuthPatterns : Type 0 where
  register login get_profile : AuthPatterns

pub data CatalogPatterns : Type 0 where
  find_all_movies find_one_movie create_movie update_movie delete_movie : CatalogPatterns

pub data OrderPatterns : Type 0 where
  create_order find_user_orders find_user_order cancel_user_order : OrderPatterns

abbrev pub common_pattern : CommonPatterns → String
common_pattern health = "health.check"

abbrev pub auth_pattern : AuthPatterns → String
auth_pattern register = "auth.register"
auth_pattern login = "auth.login"
auth_pattern get_profile = "auth.get_profile"

abbrev pub catalog_pattern : CatalogPatterns → String
catalog_pattern find_all_movies = "catalog.movies.find_all"
catalog_pattern find_one_movie = "catalog.movies.find_one"
catalog_pattern create_movie = "catalog.movies.create"
catalog_pattern update_movie = "catalog.movies.update"
catalog_pattern delete_movie = "catalog.movies.delete"

abbrev pub order_pattern : OrderPatterns → String
order_pattern create_order = "orders.create"
order_pattern find_user_orders = "orders.find_by_user"
order_pattern find_user_order = "orders.find_one_by_user"
order_pattern cancel_user_order = "orders.cancel"
