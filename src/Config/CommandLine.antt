-- ===== src/Config/CommandLine.antt =====
-- The connection of the TypeORM command line against the one of the running service
-- (libs/shared/src/database/postgres.config.ts, apps/*-service/src/*.module.ts and data-source.ts).
use cinema_microservices.Config.Wiring.{required, PostgresOptions}
use Prim.Native.String.{count}
use cinema_microservices.Prelude.{
  if◌then◌else◌, refl, ◌===◌, ◌∙◌, ◌≡◌, ◌≤◌, String, false, true, Bool-cases, List, inr, inl, arith,
  eq_iff, some, subst, sym, ap, not,
}
use cinema_microservices.Config.EnvValidation.{
  Conversions, ValidateSync, Variable, database_env, port_variable, returns, required_text,
}
use cinema_microservices.Runtime.Value.{
  Fields, Value, has_key, is_text, nullish_or, property, string, undefined, field, end, number,
  natural,
}
use cinema_microservices.Config.Accepted.{IsTextFrom, Accepts, accepted_parts, not_empty_at}
use cinema_microservices.Runtime.Validation.{ClassValidator}
use cinema_microservices.Config.Schemas.{truthy, service_env}
use cinema_microservices.Config.Wiring.{
  connection_from_env, ConfigService, PostgresConnection, database_name_variable, type_orm_options,
  postgres_options,
}
use cinema_microservices.Shared.Services.{Services}
use cinema_microservices.Config.Instance.{variable_at, property-env_instance}
use cinema_microservices.Config.Services.{
  service_env-ServiceStarts, service_env-database_env, service_env-database_name,
}
use cinema_microservices.Config.DataSources.{
  auth_data_source, catalog_data_source, order_data_source, data_source,
}

-- The environment of a process has texts only.
abbrev pub AreTexts : Fields → Type 0
AreTexts env = (k : String) → has_key k env ≡ true → is_text (property k env) ≡ true

pub property-unset : (k : String) (fs : Fields) → has_key k fs ≡ false → property k fs ≡ undefined
property-unset k end h = refl
property-unset k (field j v rest) h = elim (Bool-cases (j === k)) [
  | inl same ↦ cc
  | inr other ↦ rw (other) (property-unset k rest (ground arith))
]

converted_text :
    (conversions : Conversions) (v : Value) → is_text v ≡ true → conversions.to_string v ≡ v
converted_text conversions (string s) h = conversions.to_string_lem s
converted_text conversions v h = cc

count-filled : (s : String) → 1 ≤ count s → not (s === "") ≡ true
count-filled s low = elim (Bool-cases (s === "")) [
  | inr filled ↦ rw (filled) refl
  | inl empty ↦
      let short : 1 ≤ count "" = subst (λ x. 1 ≤ count x) ((eq_iff s "").0 empty) low in
      ground arith
]

text_truthy : (v : Value) → IsTextFrom 1 v → truthy v ≡ true
text_truthy v (s, is_s, low) = rw (is_s) (count-filled s low)

kept_number : (v w : Value) → is_text v ≡ true → nullish_or v w ≡ v
kept_number (string s) w h = refl
kept_number v w h = cc

module _ (conversions : Conversions) {validator : ClassValidator}
    (validate_sync : ValidateSync validator) (env fs : Fields) where
  module _ (vs : List Variable) (texts : AreTexts env)
      (accepted : Accepts conversions validate_sync vs env fs) where
    env_value :
        (k : String) (v : Variable)
        → variable_at k vs ≡ some v
        → property k fs
          ≡ (if has_key k env then v.field_of.transform (property k env) else v.initial)
    env_value k v at =
        sym (ap (property k) (accepted_parts conversions validate_sync vs env fs accepted).0)
        ∙ property-env_instance k vs v env at

    required_value :
        (k : String)
        → variable_at k vs ≡ some (required_text conversions k)
        → required conversions env k ≡ returns (property k fs)
    unfolding required
    required_value k at =
        let v = env_value k (required_text conversions k) at in
        let filled = not_empty_at conversions validate_sync vs env fs accepted k undefined at in
        elim (Bool-cases (has_key k env)) [
          | inl set ↦
              let same : property k fs ≡ property k env =
                v ∙ rw (set) (converted_text conversions (property k env) (texts k set)) in
              let good : truthy (property k env) ≡ true =
                text_truthy (property k env) (subst (λ x. IsTextFrom 1 x) same filled) in
              rw (good, same) refl
          | inr unset ↦
              let none_there : property k fs ≡ undefined = v ∙ rw (unset) refl in
              let (s, is_s, _) = filled in cc
        ]

    port_value :
        variable_at "DB_PORT" vs ≡ some (port_variable conversions "DB_PORT" 5432)
        → conversions.to_number (nullish_or (property "DB_PORT" env) (number (natural 5432)))
          ≡ property "DB_PORT" fs
    port_value at =
        let v = env_value "DB_PORT" (port_variable conversions "DB_PORT" 5432) at in
        elim (Bool-cases (has_key "DB_PORT" env)) [
          | inl set ↦
              ap conversions.to_number
                (kept_number (property "DB_PORT" env) (number (natural 5432)) (texts "DB_PORT" set))
              ∙ sym (v ∙ rw (set) refl)
          | inr unset ↦
              ap (λ x. conversions.to_number (nullish_or x (number (natural 5432))))
                (property-unset "DB_PORT" env unset)
              ∙ conversions.to_number_lem (natural 5432)
              ∙ sym (v ∙ rw (unset) refl)
        ]

  connection_from_env-type_orm_options :
      (service : Services) (config : ConfigService fs)
      → AreTexts env
      → Accepts conversions validate_sync (service_env conversions service) env fs
      → (connection : PostgresConnection) × (connection_from_env conversions env
            (database_name_variable service)
          ≡ returns connection)
        × (type_orm_options config service ≡ returns (postgres_options connection))
  unfolding connection_from_env database_env
  connection_from_env-type_orm_options service config texts accepted =
      let vs = service_env conversions service in
      let starts =
        service_env-ServiceStarts conversions validate_sync env fs config service accepted in
      let host =
        required_value vs texts accepted "DB_HOST"
          (service_env-database_env conversions service "DB_HOST" _ refl) in
      let user =
        required_value vs texts accepted "DB_USER"
          (service_env-database_env conversions service "DB_USER" _ refl) in
      let password =
        required_value vs texts accepted "DB_PASSWORD"
          (service_env-database_env conversions service "DB_PASSWORD" _ refl) in
      let database =
        required_value vs texts accepted (database_name_variable service)
          (service_env-database_name conversions service) in
      let port =
        port_value vs texts accepted
          (service_env-database_env conversions service "DB_PORT" _ refl) in
      (
        record {
          host = property "DB_HOST" fs;
          port = property "DB_PORT" fs;
          username = property "DB_USER" fs;
          password = property "DB_PASSWORD" fs;
          database = property (database_name_variable service) fs;
        },
        rw (host, user, password, database, port) refl,
        starts.database_result ∙ ap (λ c. returns (postgres_options c)) (sym starts.connection_of),
      )

  -- In an environment of texts that a service accepts, the data source in the directory of the
  -- service, with which the command line runs its migrations, has exactly the host, port, user,
  -- password and database of the connection that the running service opens.
  pub data_source-type_orm_options :
      (service : Services) (config : ConfigService fs)
      → AreTexts env
      → Accepts conversions validate_sync (service_env conversions service) env fs
      → (options : PostgresOptions) × (data_source conversions env service ≡ returns options)
        × (type_orm_options config service ≡ returns options)
  unfolding auth_data_source catalog_data_source order_data_source
  data_source-type_orm_options Services.auth config texts accepted =
      let (connection, from_env, at_start) =
        connection_from_env-type_orm_options Services.auth config texts accepted in
      (postgres_options connection, rw from_env refl, at_start)
  data_source-type_orm_options Services.catalog config texts accepted =
      let (connection, from_env, at_start) =
        connection_from_env-type_orm_options Services.catalog config texts accepted in
      (postgres_options connection, rw from_env refl, at_start)
  data_source-type_orm_options Services.order config texts accepted =
      let (connection, from_env, at_start) =
        connection_from_env-type_orm_options Services.order config texts accepted in
      (postgres_options connection, rw from_env refl, at_start)
