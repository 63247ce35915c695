-- ===== src/Config/Started.antt =====
-- What each process is configured with, once its environment has been accepted
-- (libs/shared/src/rpc, libs/shared/src/database and the modules under apps).
use cinema_microservices.Prelude.{[], refl, ◌∷◌, ◌≡◌, ◌≢◌, ℕ}
use cinema_microservices.Config.EnvValidation.{Conversions, Started, ValidateSync, returns}
use cinema_microservices.Runtime.Value.{Fields, Value, undefined, property, string}
use cinema_microservices.Shared.Services.{Services, service_endpoints}
use cinema_microservices.Config.Accepted.{
  IsFrom, IsPort, IsTextFrom, Accepts, not_empty_at, text_from_at, variable_at-IsPort, number_at,
}
use cinema_microservices.Config.Wiring.{
  ConfigService, ClientOptions, TcpOptions, bootstrap_microservice, rpc_client_provider,
  type_orm_options, JwtVerifyOptions, PostgresConnection, database_name_variable,
  jwt_verify_options, postgres_options,
}
use cinema_microservices.Runtime.Validation.{ClassValidator}
use cinema_microservices.Config.Schemas.{gateway_env}

-- A connection to a service that can be used: a host, a port in range, a timeout.
pub record ClientStarts (fs : Fields) (service : Services) (started : Started ClientOptions)
    : Type 0 where
  pub options : ClientOptions
  pub result : started ≡ returns options
  pub host : IsTextFrom 1 options.tcp.host
  pub port : IsPort options.tcp.port
  pub timeout : IsFrom 100 options.timeout_ms
  pub port_of : options.tcp.port ≡ property (service_endpoints service).port fs
  pub same_service : options.service ≡ service

pub record GatewayStarts {fs : Fields} (config : ConfigService fs) : Type 0 where
  pub clients : (service : Services) → ClientStarts fs service (rpc_client_provider config service)
  pub jwt : JwtVerifyOptions
  pub jwt_result : jwt_verify_options config ≡ returns jwt
  pub secret : IsTextFrom 32 jwt.secret
  pub secret_of : jwt.secret ≡ property "JWT_SECRET" fs
  pub port : Value
  pub port_result : config.get_or_throw "API_GATEWAY_PORT" ≡ returns port
  pub is_port : IsPort port

pub record ServiceStarts {fs : Fields} (config : ConfigService fs) (service : Services)
    : Type 0 where
  pub listens : TcpOptions
  pub listens_result : bootstrap_microservice config service ≡ returns listens
  pub listen_host : IsTextFrom 0 listens.host
  pub listen_port : IsPort listens.port
  pub listen_of : listens.port ≡ property (service_endpoints service).port fs
  pub connection : PostgresConnection
  pub database_result : type_orm_options config service ≡ returns (postgres_options connection)
  pub host : IsTextFrom 1 connection.host
  pub port : IsPort connection.port
  pub username : IsTextFrom 1 connection.username
  pub password : IsTextFrom 1 connection.password
  pub database : IsTextFrom 1 connection.database
  pub connection_of :
      record {
        host = property "DB_HOST" fs;
        port = property "DB_PORT" fs;
        username = property "DB_USER" fs;
        password = property "DB_PASSWORD" fs;
        database = property (database_name_variable service) fs;
      }
      ≡ connection

pub text_defined : (n : ℕ) (v : Value) → IsTextFrom n v → v ≢ undefined
text_defined n v (s, is_s, _) = λ e. cc

pub from_defined : (n : ℕ) (v : Value) → IsFrom n v → v ≢ undefined
from_defined n v (d, is_d, _) = λ e. cc

pub port_defined : (v : Value) → IsPort v → v ≢ undefined
port_defined v (d, is_d, _, _) = λ e. cc

module _ {fs : Fields} (config : ConfigService fs) where
  pub client_starts :
      (service : Services)
      → IsTextFrom 1 (property (service_endpoints service).host fs)
      → IsPort (property (service_endpoints service).port fs)
      → IsFrom 100 (property "RPC_TIMEOUT_MS" fs)
      → ClientStarts fs service (rpc_client_provider config service)
  unfolding rpc_client_provider
  client_starts service host port timeout =
      let h = config.get_or_throw_lem (service_endpoints service).host (text_defined 1 _ host) in
      let p = config.get_or_throw_lem (service_endpoints service).port (port_defined _ port) in
      let t = config.get_lem "RPC_TIMEOUT_MS" (from_defined 100 _ timeout) in
      record {
        options = record {
          tcp = record {
            host = property (service_endpoints service).host fs;
            port = property (service_endpoints service).port fs;
          };
          service = service;
          timeout_ms = property "RPC_TIMEOUT_MS" fs;
        };
        result = rw (h, p, t) refl;
        host = host;
        port = port;
        timeout = timeout;
        port_of = refl;
        same_service = refl;
      }

  pub listen_result :
      (service : Services)
      → IsTextFrom 0 (property (service_endpoints service).listen_host fs)
      → IsPort (property (service_endpoints service).port fs)
      → bootstrap_microservice config service
        ≡ returns (record {
          host = property (service_endpoints service).listen_host fs;
          port = property (service_endpoints service).port fs;
        })
  unfolding bootstrap_microservice
  listen_result service host port =
      let p = config.get_or_throw_lem (service_endpoints service).port (port_defined _ port) in
      let h =
        config.get_or_lem (service_endpoints service).listen_host (string "0.0.0.0")
          (text_defined 0 _ host) in
      rw (p, h) refl

  pub connected :
      (service : Services)
      → IsTextFrom 1 (property "DB_HOST" fs)
      → IsPort (property "DB_PORT" fs)
      → IsTextFrom 1 (property "DB_USER" fs)
      → IsTextFrom 1 (property "DB_PASSWORD" fs)
      → IsTextFrom 1 (property (database_name_variable service) fs)
      → type_orm_options config service
        ≡ returns (
            postgres_options (record {
              host = property "DB_HOST" fs;
              port = property "DB_PORT" fs;
              username = property "DB_USER" fs;
              password = property "DB_PASSWORD" fs;
              database = property (database_name_variable service) fs;
            }))
  unfolding type_orm_options
  connected service host port user password database =
      let h = config.get_or_throw_lem "DB_HOST" (text_defined 1 _ host) in
      let p = config.get_or_throw_lem "DB_PORT" (port_defined _ port) in
      let u = config.get_or_throw_lem "DB_USER" (text_defined 1 _ user) in
      let w = config.get_or_throw_lem "DB_PASSWORD" (text_defined 1 _ password) in
      let d =
        config.get_or_throw_lem (database_name_variable service) (text_defined 1 _ database) in
      rw (h, p, u, w, d) refl

module _ (conversions : Conversions) {validator : ClassValidator}
    (validate_sync : ValidateSync validator) (environment fs : Fields)
    (config : ConfigService fs) where
  gateway_client :
      (service : Services)
      → Accepts conversions validate_sync (gateway_env conversions) environment fs
      → ClientStarts fs service (rpc_client_provider config service)
  unfolding gateway_env
  gateway_client Services.auth h =
      let vs = gateway_env conversions in
      client_starts config Services.auth
        (not_empty_at conversions validate_sync vs environment fs h "AUTH_SERVICE_HOST"
          (string "localhost") refl)
        (variable_at-IsPort conversions validate_sync vs environment fs h "AUTH_SERVICE_PORT" 3003
          refl)
        (number_at conversions validate_sync vs environment fs h "RPC_TIMEOUT_MS" 100 5000 refl)
  gateway_client Services.catalog h =
      let vs = gateway_env conversions in
      client_starts config Services.catalog
        (not_empty_at conversions validate_sync vs environment fs h "CATALOG_SERVICE_HOST"
          (string "localhost") refl)
        (variable_at-IsPort conversions validate_sync vs environment fs h "CATALOG_SERVICE_PORT"
          3001 refl)
        (number_at conversions validate_sync vs environment fs h "RPC_TIMEOUT_MS" 100 5000 refl)
  gateway_client Services.order h =
      let vs = gateway_env conversions in
      client_starts config Services.order
        (not_empty_at conversions validate_sync vs environment fs h "ORDER_SERVICE_HOST"
          (string "localhost") refl)
        (variable_at-IsPort conversions validate_sync vs environment fs h "ORDER_SERVICE_PORT" 3002
          refl)
        (number_at conversions validate_sync vs environment fs h "RPC_TIMEOUT_MS" 100 5000 refl)

  -- A gateway whose environment was accepted starts: it has a client for each service, with a host,
  -- a port from 1 to 65535 and a timeout of at least 100 ms, a secret of at least 32 characters to
  -- verify tokens with, and a port to listen on.
  pub gateway_env-GatewayStarts :
      Accepts conversions validate_sync (gateway_env conversions) environment fs
      → GatewayStarts config
  unfolding gateway_env jwt_verify_options
  gateway_env-GatewayStarts h =
      let vs = gateway_env conversions in
      let secret =
        text_from_at conversions validate_sync vs environment fs h "JWT_SECRET" 32 undefined refl in
      let port =
        variable_at-IsPort conversions validate_sync vs environment fs h "API_GATEWAY_PORT" 3000
          refl in
      let s = config.get_or_throw_lem "JWT_SECRET" (text_defined 32 _ secret) in
      record {
        clients = λ service. gateway_client service h;
        jwt = record { secret = property "JWT_SECRET" fs; algorithms = "HS256" ∷ [] };
        jwt_result = rw (s) refl;
        secret = secret;
        secret_of = refl;
        port = property "API_GATEWAY_PORT" fs;
        port_result = config.get_or_throw_lem "API_GATEWAY_PORT" (port_defined _ port);
        is_port = port;
      }
