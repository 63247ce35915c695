-- ===== src/Config/Services.antt =====
-- What the auth, catalog and order services are configured with, once their environment has been
-- accepted (libs/shared/src/rpc/bootstrap-microservice.ts and apps/*-service/src/*.module.ts).
use cinema_microservices.Prelude.{[], refl, ◌∷◌, ◌≡◌, ℕ, String, some, ◌++◌, List}
use cinema_microservices.Config.EnvValidation.{
  Conversions, ValidateSync, database_env, Variable, port_variable, required_text, text_variable,
}
use cinema_microservices.Shared.Services.{Services, service_endpoints}
use cinema_microservices.Config.Schemas.{service_env, auth_env, catalog_env, order_env}
use cinema_microservices.Runtime.Validation.{ClassValidator, is_string}
use cinema_microservices.Runtime.Value.{Fields, string, undefined, property}
use cinema_microservices.Config.Wiring.{ConfigService, database_name_variable}
use cinema_microservices.Config.Accepted.{Accepts, text_at, variable_at-IsPort, not_empty_at}
use cinema_microservices.Config.Instance.{variable_at, variable_at-append}
use cinema_microservices.Config.Started.{ServiceStarts, listen_result, connected}

-- The port that a service listens on where the environment names none.
abbrev pub default_port : Services → ℕ
default_port Services.auth = 3003
default_port Services.catalog = 3001
default_port Services.order = 3002

module _ (conversions : Conversions) where
  -- Each service declares these variables with the same decorators and initializers.
  pub service_env-port :
      (service : Services)
      → variable_at (service_endpoints service).port (service_env conversions service)
        ≡ some (port_variable conversions (service_endpoints service).port (default_port service))
  unfolding service_env auth_env catalog_env order_env database_env
  service_env-port Services.auth = refl
  service_env-port Services.catalog = refl
  service_env-port Services.order = refl

  service_env-listen_host :
      (service : Services)
      → variable_at (service_endpoints service).listen_host (service_env conversions service)
        ≡ some (
            text_variable conversions
              (service_endpoints service).listen_host
              (string "0.0.0.0")
              (is_string ∷ []))
  unfolding service_env auth_env catalog_env order_env database_env
  service_env-listen_host Services.auth = refl
  service_env-listen_host Services.catalog = refl
  service_env-listen_host Services.order = refl

  pub service_env-database_name :
      (service : Services)
      → variable_at (database_name_variable service) (service_env conversions service)
        ≡ some (required_text conversions (database_name_variable service))
  unfolding service_env auth_env catalog_env order_env database_env
  service_env-database_name Services.auth = refl
  service_env-database_name Services.catalog = refl
  service_env-database_name Services.order = refl

  -- Each class extends `DatabaseEnv`.
  extends-database_env :
      (service : Services)
      → (own : List Variable) × (service_env conversions service ≡ database_env conversions ++ own)
  unfolding service_env auth_env catalog_env order_env database_env
  extends-database_env Services.auth = (_, refl)
  extends-database_env Services.catalog = (_, refl)
  extends-database_env Services.order = (_, refl)

  pub service_env-database_env :
      (service : Services) (k : String) (v : Variable)
      → variable_at k (database_env conversions) ≡ some v
      → variable_at k (service_env conversions service) ≡ some v
  service_env-database_env service k v h =
      let (own, split) = extends-database_env service in
      rw (split) (variable_at-append k (database_env conversions) own v h)

  module _ {validator : ClassValidator} (validate_sync : ValidateSync validator)
      (environment fs : Fields) (config : ConfigService fs) where
    -- A service whose environment was accepted starts: it listens on a port from 1 to 65535, and it
    -- connects to a database whose host, user, password and name are not empty and whose port is
    -- from 1 to 65535.
    pub service_env-ServiceStarts :
        (service : Services)
        → Accepts conversions validate_sync (service_env conversions service) environment fs
        → ServiceStarts config service
    unfolding database_env
    service_env-ServiceStarts service h =
        let vs = service_env conversions service in
        let listen_host =
          text_at conversions validate_sync vs environment fs h
            (service_endpoints service).listen_host (string "0.0.0.0")
            (service_env-listen_host service) in
        let listen_port =
          variable_at-IsPort conversions validate_sync vs environment fs h
            (service_endpoints service).port (default_port service) (service_env-port service) in
        let host =
          not_empty_at conversions validate_sync vs environment fs h "DB_HOST" undefined
            (service_env-database_env service "DB_HOST" _ refl) in
        let port =
          variable_at-IsPort conversions validate_sync vs environment fs h "DB_PORT" 5432
            (service_env-database_env service "DB_PORT" _ refl) in
        let username =
          not_empty_at conversions validate_sync vs environment fs h "DB_USER" undefined
            (service_env-database_env service "DB_USER" _ refl) in
        let password =
          not_empty_at conversions validate_sync vs environment fs h "DB_PASSWORD" undefined
            (service_env-database_env service "DB_PASSWORD" _ refl) in
        let database =
          not_empty_at conversions validate_sync vs environment fs h
            (database_name_variable service) undefined (service_env-database_name service) in
        record {
          listens = record {
            host = property (service_endpoints service).listen_host fs;
            port = property (service_endpoints service).port fs;
          };
          listens_result = listen_result config service listen_host listen_port;
          listen_host = listen_host;
          listen_port = listen_port;
          listen_of = refl;
          connection = record {
            host = property "DB_HOST" fs;
            port = property "DB_PORT" fs;
            username = property "DB_USER" fs;
            password = property "DB_PASSWORD" fs;
            database = property (database_name_variable service) fs;
          };
          database_result = connected config service host port username password database;
          host = host;
          port = port;
          username = username;
          password = password;
          database = database;
          connection_of = refl;
        }
