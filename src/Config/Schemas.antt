-- ===== src/Config/Schemas.antt =====
-- apps/*/src/config: the environment of each process.
use cinema_microservices.Prelude.{[], ◌++◌, ◌===◌, ◌==◌, ◌∷◌, Bool, List, false, not, true}
use cinema_microservices.Config.EnvValidation.{
  Conversions, database_env, Variable, port_variable, required_text, text_variable, number_variable,
}
use cinema_microservices.Runtime.Value.{
  Fields, Value, property, boolean, number, string, undefined, array, object, null,
}
use cinema_microservices.Shared.Services.{Services, default_rpc_timeout_ms}
use cinema_microservices.Runtime.Validation.{
  is_string, is_not_empty, min_length, is_email, is_int, min,
}

-- `Boolean(value)`
abbrev pub truthy : Value → Bool
truthy undefined = false
truthy null = false
truthy (boolean b) = b
truthy (number n) = not (n.digits == 0)
truthy (string s) = not (s === "")
truthy (array es) = true
truthy (object fs) = true

-- `ValidateIf((env) => Boolean(env.ADMIN_EMAIL))`
abbrev pub if_admin_email : Fields → Value → Bool
if_admin_email env v = truthy (property "ADMIN_EMAIL" env)

module _ (conversions : Conversions) where
  unfoldable pub auth_env : List Variable
  unfolding database_env
  auth_env =
      database_env conversions
      ++ required_text conversions "USERS_DB_NAME"
        ∷ text_variable conversions "AUTH_SERVICE_LISTEN_HOST" (string "0.0.0.0") (is_string ∷ [])
        ∷ port_variable conversions "AUTH_SERVICE_PORT" 3003
        ∷ text_variable conversions "JWT_SECRET" undefined (is_string ∷ min_length 32 ∷ [])
        ∷ text_variable conversions "JWT_EXPIRES_IN" (string "1h") (is_string ∷ is_not_empty ∷ [])
        ∷ record {
          field_of = record {
            name = "ADMIN_EMAIL";
            transform = conversions.to_string;
            condition = if_admin_email;
            decorators = is_email ∷ [];
          };
          initial = undefined;
        }
        ∷ record {
          field_of = record {
            name = "ADMIN_PASSWORD";
            transform = conversions.to_string;
            condition = if_admin_email;
            decorators = is_string ∷ min_length 8 ∷ [];
          };
          initial = undefined;
        }
        ∷ []

  unfoldable pub catalog_env : List Variable
  unfolding database_env
  catalog_env =
      database_env conversions
      ++ required_text conversions "CATALOG_DB_NAME"
        ∷ text_variable conversions "CATALOG_SERVICE_LISTEN_HOST" (string "0.0.0.0")
            (is_string ∷ [])
        ∷ port_variable conversions "CATALOG_SERVICE_PORT" 3001
        ∷ []

  unfoldable pub order_env : List Variable
  unfolding database_env
  order_env =
      database_env conversions
      ++ required_text conversions "ORDER_DB_NAME"
        ∷ text_variable conversions "ORDER_SERVICE_LISTEN_HOST" (string "0.0.0.0") (is_string ∷ [])
        ∷ port_variable conversions "ORDER_SERVICE_PORT" 3002
        ∷ text_variable conversions "CATALOG_SERVICE_HOST" (string "localhost")
            (is_string ∷ is_not_empty ∷ [])
        ∷ port_variable conversions "CATALOG_SERVICE_PORT" 3001
        ∷ number_variable conversions "RPC_TIMEOUT_MS" default_rpc_timeout_ms
            (is_int ∷ min 100 ∷ [])
        ∷ []

  unfoldable pub gateway_env : List Variable
  gateway_env =
      port_variable conversions "API_GATEWAY_PORT" 3000
      ∷ text_variable conversions "JWT_SECRET" undefined (is_string ∷ min_length 32 ∷ [])
      ∷ text_variable conversions "AUTH_SERVICE_HOST" (string "localhost")
          (is_string ∷ is_not_empty ∷ [])
      ∷ port_variable conversions "AUTH_SERVICE_PORT" 3003
      ∷ text_variable conversions "CATALOG_SERVICE_HOST" (string "localhost")
          (is_string ∷ is_not_empty ∷ [])
      ∷ port_variable conversions "CATALOG_SERVICE_PORT" 3001
      ∷ text_variable conversions "ORDER_SERVICE_HOST" (string "localhost")
          (is_string ∷ is_not_empty ∷ [])
      ∷ port_variable conversions "ORDER_SERVICE_PORT" 3002
      ∷ number_variable conversions "RPC_TIMEOUT_MS" default_rpc_timeout_ms (is_int ∷ min 100 ∷ [])
      ∷ []

  -- The schema that the module of a service gives to `ConfigModule.forRoot()`.
  unfoldable pub service_env : Services → List Variable
  unfolding auth_env catalog_env order_env
  service_env Services.auth = auth_env
  service_env Services.catalog = catalog_env
  service_env Services.order = order_env
