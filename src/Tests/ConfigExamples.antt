-- ===== src/Tests/ConfigExamples.antt =====
-- One environment in which the gateway and the three services start.
use cinema_microservices.Prelude.{refl, ◌≡◌, arith}
use cinema_microservices.Config.CommandLine.{AreTexts, data_source-type_orm_options}
use cinema_microservices.Config.Deployment.{Deployed, environment-Deployed}
use cinema_microservices.Config.EnvValidation.{
  create_env_validator, env_instance, assigned, returns, database_env,
}
use cinema_microservices.Config.Started.{GatewayStarts, ServiceStarts, gateway_env-GatewayStarts}
use cinema_microservices.Config.Wiring.{type_orm_options, PostgresOptions}
use cinema_microservices.Runtime.Value.{Fields, field, string, end}
use cinema_microservices.Shared.Services.{Services}
use cinema_microservices.Config.Schemas.{gateway_env, service_env, auth_env, catalog_env, order_env}
use cinema_microservices.Tests.Validators.{config_of, conversions, validate_sync}
use cinema_microservices.Config.Services.{service_env-ServiceStarts}
use cinema_microservices.Runtime.Validation.{fits, to_instance, transformed}
use cinema_microservices.Config.Accepted.{Accepts}
use cinema_microservices.Config.DataSources.{data_source}

abbrev environment : Fields
environment = field "JWT_SECRET" (string "0123456789abcdef0123456789abcdef") (
    field "DB_HOST" (string "localhost") (
      field "DB_USER" (string "cinema") (
        field "DB_PASSWORD" (string "secret") (
          field "USERS_DB_NAME" (string "users") (
            field "CATALOG_DB_NAME" (string "catalog")
              (field "ORDER_DB_NAME" (string "orders") end))))))

abbrev gateway : Fields
gateway = env_instance (gateway_env conversions) environment

abbrev validated : Services → Fields
validated service = env_instance (service_env conversions service) environment

gateway_accepts : Accepts conversions validate_sync (gateway_env conversions) environment gateway
unfolding create_env_validator gateway_env fits env_instance assigned to_instance transformed
gateway_accepts = refl

service_accepts :
    (service : Services)
    → Accepts conversions validate_sync
        (service_env conversions service)
        environment
        (validated service)
unfolding create_env_validator service_env auth_env catalog_env order_env database_env fits
    env_instance assigned to_instance transformed
service_accepts Services.auth = refl
service_accepts Services.catalog = refl
service_accepts Services.order = refl

gateway_env-GatewayStarts_example : GatewayStarts (config_of gateway)
gateway_env-GatewayStarts_example =
    gateway_env-GatewayStarts conversions validate_sync environment gateway (config_of gateway)
      gateway_accepts

service_env-ServiceStarts_example :
    ServiceStarts (config_of (validated Services.order)) Services.order
service_env-ServiceStarts_example =
    service_env-ServiceStarts conversions validate_sync environment (validated Services.order)
      (config_of (validated Services.order)) Services.order (service_accepts Services.order)

environment-Deployed_example :
    Deployed (config_of gateway) (λ service. config_of (validated service))
environment-Deployed_example =
    environment-Deployed conversions validate_sync environment gateway (config_of gateway) validated
      (λ service. config_of (validated service)) gateway_accepts service_accepts

environment-AreTexts : AreTexts environment
environment-AreTexts k h = ground arith

data_source-type_orm_options_example :
    (options : PostgresOptions) × (data_source conversions environment Services.catalog
      ≡ returns options)
    × (type_orm_options (config_of (validated Services.catalog)) Services.catalog ≡ returns options)
data_source-type_orm_options_example =
    data_source-type_orm_options conversions validate_sync environment (validated Services.catalog)
      Services.catalog (config_of (validated Services.catalog)) environment-AreTexts
      (service_accepts Services.catalog)
