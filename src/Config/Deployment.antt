-- ===== src/Config/Deployment.antt =====
-- Processes that start in the same environment (.env.example): what one is configured with against
-- what another is.
use cinema_microservices.Prelude.{[], refl, ◌∙◌, ◌∷◌, ◌≡◌, List, String, some, sym, ap}
use cinema_microservices.Config.EnvValidation.{
  Conversions, ValidateSync, Variable, database_env, returns, port_variable, text_variable,
}
use cinema_microservices.Runtime.Value.{Fields, property, undefined, string}
use cinema_microservices.Config.Wiring.{
  ConfigService, ClientOptions, TcpOptions, jwt_sign_options, rpc_client_provider, JwtSignOptions,
  bootstrap_microservice, JwtVerifyOptions, jwt_verify_options,
}
use cinema_microservices.Runtime.Validation.{ClassValidator, is_string, min_length}
use cinema_microservices.Shared.Services.{Services, service_endpoints}
use cinema_microservices.Config.Schemas.{gateway_env, service_env, auth_env, order_env, catalog_env}
use cinema_microservices.Config.Instance.{variable_at, property-env_instance}
use cinema_microservices.Config.Accepted.{
  Accepts, accepted_parts, text_from_at, not_empty_at, variable_at-IsPort, number_at,
}
use cinema_microservices.Config.Started.{
  ClientStarts, gateway_env-GatewayStarts, client_starts, text_defined, ServiceStarts,
}
use cinema_microservices.Config.Services.{default_port, service_env-ServiceStarts, service_env-port}

-- The clients know where the services listen, and the gateway verifies tokens with the secret that
-- the auth service signs them with.
pub record Deployed {gateway : Fields} (gateway_config : ConfigService gateway)
    {validated : Services → Fields}
    (configs : (service : Services) → ConfigService (validated service)) : Type 0 where
  pub ports :
      (service : Services)
      → (client : ClientOptions) × (listens : TcpOptions) × (rpc_client_provider gateway_config
            service
          ≡ returns client)
        × (bootstrap_microservice (configs service) service ≡ returns listens)
        × (client.tcp.port ≡ listens.port)
  pub catalog_port :
      (client : ClientOptions) × (listens : TcpOptions) × (rpc_client_provider
          (configs Services.order)
          Services.catalog
        ≡ returns client)
      × (bootstrap_microservice (configs Services.catalog) Services.catalog ≡ returns listens)
      × (client.tcp.port ≡ listens.port)
  pub secrets :
      (sign : JwtSignOptions) × (verify : JwtVerifyOptions) × (jwt_sign_options
          (configs Services.auth)
        ≡ returns sign)
      × (jwt_verify_options gateway_config ≡ returns verify)
      × (verify.secret ≡ sign.secret)

module _ (conversions : Conversions) {validator : ClassValidator}
    (validate_sync : ValidateSync validator) (environment : Fields) where
  -- Two classes that declare a variable in the same way read the same value from the environment.
  same_variable :
      (vs ws : List Variable) (fs gs : Fields) (k : String) (v : Variable)
      → Accepts conversions validate_sync vs environment fs
      → Accepts conversions validate_sync ws environment gs
      → variable_at k vs ≡ some v
      → variable_at k ws ≡ some v
      → property k fs ≡ property k gs
  same_variable vs ws fs gs k v h h' at at' =
      let (it, _) = accepted_parts conversions validate_sync vs environment fs h in
      let (it', _) = accepted_parts conversions validate_sync ws environment gs h' in
      sym (ap (property k) it)
      ∙ property-env_instance k vs v environment at
      ∙ sym (property-env_instance k ws v environment at')
      ∙ ap (property k) it'

  gateway_env-port :
      (service : Services)
      → variable_at (service_endpoints service).port (gateway_env conversions)
        ≡ some (port_variable conversions (service_endpoints service).port (default_port service))
  unfolding gateway_env
  gateway_env-port Services.auth = refl
  gateway_env-port Services.catalog = refl
  gateway_env-port Services.order = refl

  sign_options :
      (fs : Fields) (config : ConfigService fs)
      → Accepts conversions validate_sync (service_env conversions Services.auth) environment fs
      → (sign : JwtSignOptions) × (jwt_sign_options config ≡ returns sign)
        × (sign.secret ≡ property "JWT_SECRET" fs)
  unfolding service_env auth_env jwt_sign_options database_env
  sign_options fs config h =
      let vs = service_env conversions Services.auth in
      let secret =
        text_from_at conversions validate_sync vs environment fs h "JWT_SECRET" 32 undefined refl in
      let expires =
        not_empty_at conversions validate_sync vs environment fs h "JWT_EXPIRES_IN" (string "1h")
          refl in
      let s = config.get_or_throw_lem "JWT_SECRET" (text_defined 32 _ secret) in
      let e = config.get_or_throw_lem "JWT_EXPIRES_IN" (text_defined 1 _ expires) in
      (
        record { secret = property "JWT_SECRET" fs; expires_in = property "JWT_EXPIRES_IN" fs },
        rw (s, e) refl,
        refl,
      )

  catalog_client :
      (fs : Fields) (config : ConfigService fs)
      → Accepts conversions validate_sync (service_env conversions Services.order) environment fs
      → ClientStarts fs Services.catalog (rpc_client_provider config Services.catalog)
  unfolding service_env order_env database_env
  catalog_client fs config h =
      let vs = service_env conversions Services.order in
      client_starts config Services.catalog
        (not_empty_at conversions validate_sync vs environment fs h "CATALOG_SERVICE_HOST"
          (string "localhost") refl)
        (variable_at-IsPort conversions validate_sync vs environment fs h "CATALOG_SERVICE_PORT"
          3001 refl)
        (number_at conversions validate_sync vs environment fs h "RPC_TIMEOUT_MS" 100 5000 refl)

  -- When the gateway and the three services accept the same environment, every client connects to
  -- the port that its service listens on, of the gateway and of the order service alike, and the
  -- gateway verifies tokens with the secret that the auth service signs them with.
  pub environment-Deployed :
      (gateway : Fields) (gateway_config : ConfigService gateway) (validated : Services → Fields)
      (configs : (service : Services) → ConfigService (validated service))
      → Accepts conversions validate_sync (gateway_env conversions) environment gateway
      → ((service : Services)
          → Accepts conversions validate_sync
              (service_env conversions service)
              environment
              (validated service))
      → Deployed gateway_config configs
  unfolding gateway_env service_env order_env catalog_env auth_env database_env
  environment-Deployed gateway gateway_config validated configs accepts accept =
      let starts =
        gateway_env-GatewayStarts conversions validate_sync environment gateway gateway_config
          accepts in
      let services : (service : Services) → ServiceStarts (configs service) service = λ service.
        service_env-ServiceStarts conversions validate_sync environment (validated service)
          (configs service) service (accept service) in
      let (sign, signs, secret) =
        sign_options (validated Services.auth) (configs Services.auth) (accept Services.auth) in
      let order_client =
        catalog_client (validated Services.order) (configs Services.order)
          (accept Services.order) in
      record {
        ports = λ service. (
          (starts.clients service).options,
          (services service).listens,
          (starts.clients service).result,
          (services service).listens_result,
          (starts.clients service).port_of
              ∙ same_variable (gateway_env conversions) (service_env conversions service) gateway
                  (validated service) (service_endpoints service).port _ accepts (accept service)
                  (gateway_env-port service) (service_env-port conversions service)
              ∙ sym (services service).listen_of,
        );
        catalog_port = (
          order_client.options,
          (services Services.catalog).listens,
          order_client.result,
          (services Services.catalog).listens_result,
          order_client.port_of
              ∙ same_variable (service_env conversions Services.order)
                  (service_env conversions Services.catalog) (validated Services.order)
                  (validated Services.catalog) "CATALOG_SERVICE_PORT"
                  (port_variable conversions "CATALOG_SERVICE_PORT" 3001) (accept Services.order)
                  (accept Services.catalog) refl refl
              ∙ sym (services Services.catalog).listen_of,
        );
        secrets = (
          sign,
          starts.jwt,
          signs,
          starts.jwt_result,
          starts.secret_of
              ∙ same_variable (gateway_env conversions) (service_env conversions Services.auth)
                  gateway (validated Services.auth) "JWT_SECRET"
                  (text_variable conversions "JWT_SECRET" undefined
                    (is_string ∷ min_length 32 ∷ []))
                  accepts (accept Services.auth) refl refl
              ∙ sym secret,
        );
      }
