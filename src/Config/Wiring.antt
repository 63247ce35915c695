-- ===== src/Config/Wiring.antt =====
-- What the processes configure from their validated environment: libs/shared/src/rpc/rpc-client.ts,
-- libs/shared/src/rpc/bootstrap-microservice.ts, libs/shared/src/database/postgres.config.ts and
-- the modules of the applications.
use cinema_microservices.Config.EnvValidation.{◌>>=◌, Conversions, Started, returns, fails}
use cinema_microservices.Prelude.{
  [], if◌then◌else◌, ◌∷◌, ◌≡◌, ◌≢◌, Bool, true, List, String, false, not,
}
use cinema_microservices.Runtime.Value.{
  Fields, Value, property, nullish_or, string, undefined, number, natural, template,
}
use cinema_microservices.Shared.Services.{Services, service_endpoints}
use cinema_microservices.Config.Schemas.{truthy}

-- `ConfigService` of `@nestjs/config`, third-party code, over a validated environment: a variable
-- that the validated environment defines has the value that it has there.
pub record ConfigService (validated : Fields) : Type 0 where
  pub get : String → Value
  -- `get` with a default value.
  pub get_or : String → Value → Value
  pub get_or_throw : String → Started Value
  pub get_lem : (k : String) → property k validated ≢ undefined → get k ≡ property k validated
  pub get_or_lem :
      (k : String) (v : Value)
      → property k validated ≢ undefined
      → get_or k v ≡ property k validated
  pub get_or_throw_lem :
      (k : String)
      → property k validated ≢ undefined
      → get_or_throw k ≡ returns (property k validated)

-- The address of a TCP transport.
pub record TcpOptions : Type 0 where
  pub host : Value
  pub port : Value

-- What `rpcClientProvider` gives to the proxy factory and to `RpcClient`.
pub record ClientOptions : Type 0 where
  pub tcp : TcpOptions
  pub service : Services
  pub timeout_ms : Value

pub record PostgresConnection : Type 0 where
  pub host : Value
  pub port : Value
  pub username : Value
  pub password : Value
  pub database : Value

-- The options that every service shares: migrations run on startup, and nothing else changes the
-- schema.
pub record PostgresOptions : Type 0 where
  pub connection : PostgresConnection
  pub migrations_run : Bool
  pub synchronize : Bool

abbrev pub postgres_options : PostgresConnection → PostgresOptions
postgres_options connection = record {
  connection = connection;
  migrations_run = true;
  synchronize = false;
}

abbrev pub database_name_variable : Services → String
database_name_variable Services.auth = "USERS_DB_NAME"
database_name_variable Services.catalog = "CATALOG_DB_NAME"
database_name_variable Services.order = "ORDER_DB_NAME"

pub record JwtSignOptions : Type 0 where
  pub secret : Value
  pub expires_in : Value

pub record JwtVerifyOptions : Type 0 where
  pub secret : Value
  pub algorithms : List String

module _ {validated : Fields} (config : ConfigService validated) where
  unfoldable pub rpc_client_provider : Services → Started ClientOptions
  rpc_client_provider service = do
    host ← config.get_or_throw (service_endpoints service).host
    port ← config.get_or_throw (service_endpoints service).port
    returns (record {
      tcp = record { host = host; port = port };
      service = service;
      timeout_ms = config.get "RPC_TIMEOUT_MS";
    })

  -- The options of the microservice that `bootstrapMicroservice` creates.
  unfoldable pub bootstrap_microservice : Services → Started TcpOptions
  bootstrap_microservice service = do
    port ← config.get_or_throw (service_endpoints service).port
    returns (record {
      host = config.get_or (service_endpoints service).listen_host (string "0.0.0.0");
      port = port;
    })

  -- `TypeOrmModule.forRootAsync` of a service.
  unfoldable pub type_orm_options : Services → Started PostgresOptions
  type_orm_options service = do
    host ← config.get_or_throw "DB_HOST"
    port ← config.get_or_throw "DB_PORT"
    username ← config.get_or_throw "DB_USER"
    password ← config.get_or_throw "DB_PASSWORD"
    database ← config.get_or_throw (database_name_variable service)
    returns (
        postgres_options (record {
          host = host;
          port = port;
          username = username;
          password = password;
          database = database;
        }))

  -- `JwtModule.registerAsync` of the auth service and of the gateway.
  unfoldable pub jwt_sign_options : Started JwtSignOptions
  jwt_sign_options = do
    secret ← config.get_or_throw "JWT_SECRET"
    expires_in ← config.get_or_throw "JWT_EXPIRES_IN"
    returns (record { secret = secret; expires_in = expires_in })

  unfoldable pub jwt_verify_options : Started JwtVerifyOptions
  jwt_verify_options = do
    secret ← config.get_or_throw "JWT_SECRET"
    returns (record { secret = secret; algorithms = "HS256" ∷ [] })

-- `connectionFromEnv`, for the command line of TypeORM. `env` is `process.env`.
module _ (conversions : Conversions) (env : Fields) where
  unfoldable pub required : String → Started Value
  required name =
      if not (truthy (property name env))
      then fails (template ("Missing environment variable " ∷ name ∷ []))
      else returns (property name env)

  unfoldable pub connection_from_env : String → Started PostgresConnection
  unfolding required
  connection_from_env database_name_variable = do
    host ← required "DB_HOST"
    username ← required "DB_USER"
    password ← required "DB_PASSWORD"
    database ← required database_name_variable
    returns (record {
      host = host;
      port = conversions.to_number (nullish_or (property "DB_PORT" env) (number (natural 5432)));
      username = username;
      password = password;
      database = database;
    })
