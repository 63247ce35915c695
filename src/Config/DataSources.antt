-- ===== src/Config/DataSources.antt =====
-- The data sources of the TypeORM command line: apps/*-service/src/database/data-source.ts.
use cinema_microservices.Config.EnvValidation.{◌>>=◌, Started, returns}
use cinema_microservices.Config.EnvValidation.{Conversions}
use cinema_microservices.Config.Wiring.{connection_from_env, postgres_options, PostgresOptions}
use cinema_microservices.Runtime.Value.{Fields}
use cinema_microservices.Shared.Services.{Services}

module _ (conversions : Conversions) (env : Fields) where
  unfoldable pub auth_data_source : Started PostgresOptions
  auth_data_source = do
    connection ← connection_from_env conversions env "USERS_DB_NAME"
    returns (postgres_options connection)

  unfoldable pub catalog_data_source : Started PostgresOptions
  catalog_data_source = do
    connection ← connection_from_env conversions env "CATALOG_DB_NAME"
    returns (postgres_options connection)

  unfoldable pub order_data_source : Started PostgresOptions
  order_data_source = do
    connection ← connection_from_env conversions env "ORDER_DB_NAME"
    returns (postgres_options connection)

  -- The data source of the directory of a service.
  abbrev pub data_source : Services → Started PostgresOptions
  data_source Services.auth = auth_data_source
  data_source Services.catalog = catalog_data_source
  data_source Services.order = order_data_source
